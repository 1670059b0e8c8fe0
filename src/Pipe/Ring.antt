-- ===== src/Pipe/Ring.antt =====
-- The bytes that a pipe holds, oldest first, and the invariant of its two counters.
use os.Prelude.{
  ℕ, zero, suc, ◌+◌, ◌-◌, ◌%◌, ◌^◌, ◌≤◌, ◌<◌, ◌≡◌, refl, ◌∙◌, ap, ◌≢◌, true, false, List, [], ◌∷◌,
  ◌++◌, length, get_or, set, arith, length-set,
}
use os.Pipe.{Pipe, pipe_size, add_uint, is_empty, is_full, put, get}

-- How many bytes are held: `nwrite - nread`, which wraps as `uint` does.
abbrev pub count : Pipe → ℕ
count p = (p.nwrite + 2 ^ 32 - p.nread) % 2 ^ 32

-- the `n` bytes of the ring from the counter value `h` on
abbrev pub window : List ℕ → ℕ → ℕ → List ℕ
window d h zero = []
window d h (suc n) = get_or d (h % pipe_size) 0 ∷ window d (add_uint h 1) n

abbrev pub contents : Pipe → List ℕ
contents p = window p.bytes p.nread (count p)

pub record IsValid (p : Pipe) : Type 0 where
  pub page : length p.bytes ≡ pipe_size
  pub nread_uint : p.nread < 2 ^ 32
  pub nwrite_uint : p.nwrite < 2 ^ 32
  pub bounded : count p ≤ pipe_size

length-window : (d : List ℕ) (h n : ℕ) → length (window d h n) ≡ n
length-window d h zero = refl
length-window d h (suc n) = ap suc (length-window d (add_uint h 1) n)

pub length-contents : (p : Pipe) → length (contents p) ≡ count p
length-contents p = length-window p.bytes p.nread (count p)

get_or-set_self : (xs : List ℕ) (i v d : ℕ) → i < length xs → get_or (set xs i v) i d ≡ v
get_or-set_self [] i v d h = absurd (omega arith)
get_or-set_self (x ∷ xs) zero v d h = refl
get_or-set_self (x ∷ xs) (suc i) v d h = get_or-set_self xs i v d (omega arith)

get_or-set_ne : (xs : List ℕ) (i j v d : ℕ) → i ≢ j → get_or (set xs i v) j d ≡ get_or xs j d
get_or-set_ne [] i j v d h = refl
get_or-set_ne (x ∷ xs) zero zero v d h = absurd (h refl)
get_or-set_ne (x ∷ xs) zero (suc j) v d h = refl
get_or-set_ne (x ∷ xs) (suc i) zero v d h = refl
get_or-set_ne (x ∷ xs) (suc i) (suc j) v d h = get_or-set_ne xs i j v d (λ e. h (ap suc e))

-- Writing at the end of a window that does not fill the ring extends it by that byte.
window-set :
    (d : List ℕ) (b n h i : ℕ)
    → length d ≡ pipe_size
    → h < 2 ^ 32
    → n < pipe_size
    → i ≡ (h + n) % 2 ^ 32 % pipe_size
    → window (set d i b) h (suc n) ≡ window d h n ++ (b ∷ [])
window-set d b zero h i l hh hn e =
    let same : i ≡ h % pipe_size = omega arith in
    rw same (ap (λ x. x ∷ []) (get_or-set_self d (h % pipe_size) b 0 (omega arith)))
window-set d b (suc n) h i l hh hn e =
    let apart : i ≢ h % pipe_size = omega arith in
    let rest = window-set d b n (add_uint h 1) i l (omega arith) (omega arith) (omega arith) in
    λ k. get_or-set_ne d i (h % pipe_size) b 0 apart k ∷ rest k

pub count-put : {p : Pipe} (b : ℕ) → IsValid p → is_full p ≡ false → count (put p b) ≡ suc (count p)
unfolding put
count-put b v room = ground arith

pub put-IsValid : {p : Pipe} (b : ℕ) → IsValid p → is_full p ≡ false → IsValid (put p b)
unfolding put
put-IsValid {p} b v room = ground (arith, length-set p.bytes (p.nwrite % pipe_size) b)

pub contents-put :
    {p : Pipe} (b : ℕ) → IsValid p → is_full p ≡ false → contents (put p b) ≡ contents p ++ (b ∷ [])
unfolding put
contents-put {p} b v room =
    let less : count p < pipe_size = ground arith in
    let at : p.nwrite % pipe_size ≡ (p.nread + count p) % 2 ^ 32 % pipe_size = omega arith in
    ap (window (put p b).bytes p.nread) (count-put b v room)
    ∙ window-set p.bytes b (count p) p.nread (p.nwrite % pipe_size) v.page v.nread_uint less at

pub count-get : {p : Pipe} → IsValid p → is_empty p ≡ false → count p ≡ suc (count (get p).1)
unfolding get
count-get v some_left = ground arith

pub get-IsValid : {p : Pipe} → IsValid p → is_empty p ≡ false → IsValid (get p).1
unfolding get
get-IsValid v some_left = ground arith

pub contents-get :
    {p : Pipe} → IsValid p → is_empty p ≡ false → contents p ≡ (get p).0 ∷ contents (get p).1
unfolding get
contents-get {p} v some_left = ap (window p.bytes p.nread) (count-get v some_left)

pub contents-empty : {p : Pipe} → IsValid p → is_empty p ≡ true → contents p ≡ []
contents-empty {p} v e =
    let none_left : count p ≡ 0 = ground arith in ap (window p.bytes p.nread) none_left
