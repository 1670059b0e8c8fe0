-- ===== src/Transact/Runs.antt =====
-- A function with its calls of `log_write`, against the same without.
use os.Prelude.{
  ℕ, suc, ◌-◌, ◌≤◌, ◌<◌, ◌≡◌, ◌≢◌, ◌⊎◌, refl, inl, inr, true, false, not, ◌||◌, List, some, leb,
  length, Outcome, ok, panic, fault, ◌>>=◌, arith, Bool-cases,
}
use os.Log.{record_sector}
use os.Blocks.{Disk, Superblock, bblock, balloc}
use os.Blocks.Search.{IsFree, IsAlloc, balloc-IsAlloc, free}
use os.Transact.{Trans, log_sector, log_new, balloc_logged}
use os.Transact.Budget.{mem, mem-record, cost, cost-any, cost-map, cost-new}

-- With the log it ends as without, and `Q` holds of the result and the log; or, only if `O`, the log
-- is full.
pub data Runs {A : Type 0} (O : Type 0) (Q : A → Trans → Type 0) (o : Outcome A)
    : Outcome (A × Trans) → Type 0 where
  runs : {a : A} {t : Trans} → o ≡ ok a → Q a t → Runs O Q o (ok (a, t))
  stops : {m : _} → o ≡ panic m → Runs O Q o (panic m)
  breaks : o ≡ fault → Runs O Q o fault
  overflows : O → Runs O Q o (panic "too big a transaction")

pub bind-Runs :
    {A B : Type 0} {O : Type 0} {Q : A → Trans → Type 0} {R : B → Trans → Type 0} {o : Outcome A}
    {r : Outcome (A × Trans)} (f : A → Outcome B) (g : A × Trans → Outcome (B × Trans))
    → Runs O Q o r
    → ((a : A) (t : Trans) → o ≡ ok a → Q a t → Runs O R (f a) (g (a, t)))
    → Runs O R (o >>= f) (r >>= g)
bind-Runs f g (runs {a} {t} e q) h = rw e (h a t e q)
bind-Runs f g (stops e) h = rw e (stops refl)
bind-Runs f g (breaks e) h = rw e (breaks refl)
bind-Runs f g (overflows x) h = overflows x

-- The same run, where less is to be said of it.
pub weaken-Runs :
    {A : Type 0} {O : Type 0} {Q R : A → Trans → Type 0} {o : Outcome A} {r : Outcome (A × Trans)}
    → Runs O Q o r
    → ((a : A) (t : Trans) → o ≡ ok a → Q a t → R a t)
    → Runs O R o r
weaken-Runs (runs {a} {t} e q) h = runs e (h a t e q)
weaken-Runs (stops e) h = stops e
weaken-Runs (breaks e) h = breaks e
weaken-Runs (overflows x) h = overflows x

pub or_map : {O P Q : Type 0} → (P → Q) → O ⊎ P → O ⊎ Q
or_map f (inl o) = inl o
or_map f (inr p) = inr (f p)

pub or_both : {O P Q R : Type 0} → (P → Q → R) → O ⊎ P → O ⊎ Q → O ⊎ R
or_both f (inl o) y = inl o
or_both f (inr p) (inl o) = inl o
or_both f (inr p) (inr q) = inr (f p q)

-- In a transaction, with a log that has room for it.
pub record IsOpen (t : Trans) : Type 0 where
  pub busy : t.busy ≡ true
  pub room : 10 ≤ t.size

abbrev pub logged : ℕ → Trans → Trans
logged s t = record t { lh = record_sector s t.lh }

pub logged-IsOpen : (s : ℕ) {t : Trans} → IsOpen t → IsOpen (logged s t)
logged-IsOpen s o = record { busy = o.busy; room = o.room }

pub log_sector-Runs :
    {A : Type 0} {O : Type 0} {Q : A → Trans → Type 0} {o : Outcome A} (s : ℕ) (t : Trans)
    (g : Trans → Outcome (A × Trans))
    → IsOpen t
    → O ⊎ (length t.lh ≤ 8)
    → Runs O Q o (g (logged s t))
    → Runs O Q o (log_sector s t >>= g)
unfolding log_sector
log_sector-Runs s t g opened fits h =
    elim (Bool-cases (leb 10 (length t.lh) || leb (t.size - 1) (length t.lh))) [
      | inl full ↦ rw full (elim fits [
        | inl x ↦ overflows x
        | inr l ↦ absurd (still_room (length t.lh) t.size opened.room l full)
      ])
      | inr has_room ↦
          let busy : (not t.busy) ≡ false = ground (arith, opened.busy) in rw (has_room, busy) h
    ]
  where
    still_room : (n size : ℕ) → 10 ≤ size → n ≤ 8 → ¬ ((leb 10 n || leb (size - 1) n) ≡ true)
    still_room n size r l e = absurd (ground (arith, e))

-- What is said of the log, with the bitmap's one block `b` and the indirect block `i`.
pub record Costs (O : Type 0) (b i n : ℕ) (t : Trans) : Type 0 where
  pub opened : IsOpen t
  pub fits : O ⊎ (cost b i t.lh ≤ n)

pub short : {O : Type 0} {b i n : ℕ} {t : Trans} → n ≤ 8 → Costs O b i n t → O ⊎ (length t.lh ≤ 8)
short l c = or_map (λ f. omega arith) c.fits

-- What an allocation of `x` leaves: it cost one, or nothing if it is the indirect block.
pub record Allocated (O : Type 0) (b i n x : ℕ) (t : Trans) : Type 0 where
  pub costs : Costs O b i (suc n) t
  pub indirect : i ≡ 0 → x ≢ 0 → Costs O b x n t
  pub there : mem x t.lh ≡ true

new_there : (x : ℕ) (lh : List ℕ) → mem x (record_sector x lh) ≡ true
new_there x lh = let e = mem-record x x lh in ground (arith, e)

inside_map :
    (sb : Superblock) (d : Disk) (o : Outcome (ℕ × Disk)) (x : ℕ) (d' : Disk)
    → IsAlloc sb d 0 o
    → o ≡ ok (x, d')
    → x < sb.size
unfolding IsAlloc
inside_map sb d o x d' h e = let (f, _) = rw e at h in in_size f
  where
    in_size : IsFree sb d 0 sb.size (some x) → x < sb.size
    in_size (free x lo hi l z before) = l

pub balloc-Runs :
    {O : Type 0} (sb : Superblock) (i n : ℕ) (d : Disk) (t : Trans)
    → O ⊎ (sb.size ≤ 4096)
    → n ≤ 7
    → Costs O (bblock sb 0) i n t
    → Runs O (λ (x, d') t'. Allocated O (bblock sb 0) i n x t') (balloc sb d) (balloc_logged sb d t)
balloc-Runs {O} sb i n d t small l c = go (balloc sb d) (balloc-IsAlloc sb d)
  where
    go :
        (o : Outcome (ℕ × Disk))
        → IsAlloc sb d 0 o
        → Runs O (λ (x, d') t'. Allocated O (bblock sb 0) i n x t') o (o >>= log_new sb t)
    go (panic m) h = stops refl
    go fault h = breaks refl
    go (ok (x, d')) h =
        let b = bblock sb 0 in
        let u = logged (bblock sb x) t in
        let same : O ⊎ (bblock sb x ≡ b) =
          or_map (λ s. let y = inside_map sb d (ok (x, d')) x d' h refl in omega arith) small in
        let v : Costs O b i n u = record {
          opened = logged-IsOpen (bblock sb x) c.opened;
          fits = or_both (λ e f. omega (arith, cost-map b i (bblock sb x) t.lh e, f)) same c.fits;
        } in
        log_sector-Runs (bblock sb x) t (λ t'. log_sector x t' >>= λ t''. ok ((x, d'), t''))
          c.opened (short (omega arith) c)
          (log_sector-Runs x u (λ t''. ok ((x, d'), t'')) v.opened (short (omega arith) v)
            (runs refl (record {
              costs = record {
                opened = logged-IsOpen x v.opened;
                fits = or_map (λ f. omega (arith, cost-any b i x u.lh, f)) v.fits;
              };
              indirect = λ z ne. record {
                opened = logged-IsOpen x v.opened;
                fits =
                    or_map
                      (λ f.
                        let w : cost b 0 u.lh ≤ n = rw z at f in
                        omega (arith, cost-new b x u.lh ne, w))
                      v.fits;
              };
              there = new_there x u.lh;
            })))
