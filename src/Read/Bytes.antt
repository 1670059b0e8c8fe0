-- ===== src/Read/Bytes.antt =====
-- Lists of bytes from an offset on.
use os.Prelude.{ℕ, zero, suc, ◌+◌, ◌<◌, ◌≡◌, refl, ◌∙◌, ap, ◌∷◌, ◌++◌, arith}
use os.Read.{bytes_from}

pub bytes_from-ext :
    (f g : ℕ → ℕ) (n o o' : ℕ)
    → ((j : ℕ) → j < n → f (o + j) ≡ g (o' + j))
    → bytes_from f o n ≡ bytes_from g o' n
bytes_from-ext f g zero o o' h = refl
bytes_from-ext f g (suc n) o o' h =
    let here : f o ≡ g o' = ap f (omega arith) ∙ h 0 (omega arith) ∙ ap g (omega arith) in
    let rest =
      bytes_from-ext f g n (o + 1) (o' + 1)
        λ j l. ap f (omega arith) ∙ h (j + 1) (omega arith) ∙ ap g (omega arith) in
    rw (here, rest) refl

pub bytes_from-append :
    (f : ℕ → ℕ) (m n o : ℕ) → bytes_from f o (m + n) ≡ bytes_from f o m ++ bytes_from f (o + m) n
bytes_from-append f zero n o =
    let none_yet : 0 + n ≡ n = omega arith in
    let start : o + 0 ≡ o = omega arith in rw (none_yet, start) refl
bytes_from-append f (suc m) n o =
    let more : suc m + n ≡ suc (m + n) = omega arith in
    let next : o + suc m ≡ o + 1 + m = omega arith in
    rw (more, next) (ap (λ bs. f o ∷ bs) (bytes_from-append f m n (o + 1)))
