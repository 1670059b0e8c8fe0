-- ===== src/Shell/Total.antt =====
-- sh.c: the fuel that the parser takes.
use Prim.Native.String.{String}
use os.Prelude.{
  ℕ, zero, suc, ◌+◌, ◌-◌, ◌*◌, ◌≤◌, ◌<◌, ◌≡◌, refl, ◌⊎◌, inl, inr, List, [], ◌∷◌, ◌++◌, leb, length,
  arith, if_split,
}
use os.Shell.{
  Text, Token, end, symbol, append, word, gettoken, skip_space, peek, Cmd, Redir, redirected,
  pipecmd, listcmd, backcmd, Parsed, parsed, panics, no_fuel, Parser, ◌>>=◌, file_after,
  parseredirs, one_arg, parse_args, parse_backs, parseline, parsepipe, parseblock, parseexec,
  finish, parsecmd, bar, rparen, lparen, amp, semicolon, less, greater, maxargs,
}
use os.Shell.Lengths.{Consumes, length-skip_space-le, gettoken-lt, gettoken-Consumes}

-- The parser has not run out of fuel, and leaves at most `n` characters.
abbrev pub Ends {ℓ} : {A : Type ℓ} → ℕ → Parsed A → Type 0
Ends n (parsed a s) = length s ≤ n
Ends n (panics m) = Unit {0}
Ends n no_fuel = ⊥

Ends-bind {ℓ κ} :
    {A : Type ℓ} {B : Type κ} (n k : ℕ) (m : Parsed A) (f : A → Parser B)
    → Ends n m
    → ((a : A) (s : Text) → length s ≤ n → Ends k (f a s))
    → Ends k (m >>= f)
Ends-bind n k (parsed a s) f h g = g a s h
Ends-bind n k (panics e) f h g = tt
Ends-bind n k no_fuel f h g = absurd h

Ends-le {ℓ} : {A : Type ℓ} (n k : ℕ) (m : Parsed A) → n ≤ k → Ends n m → Ends k m
Ends-le n k (parsed a s) le h = omega arith
Ends-le n k (panics e) le h = tt
Ends-le n k no_fuel le h = h

file_after-Ends :
    (n k : ℕ) (tok : Token) (r : Token × Text) → n ≤ k → Consumes n r → Ends k (file_after tok r)
file_after-Ends n k tok (end, rest) le h = tt
file_after-Ends n k tok (symbol c, rest) le h = tt
file_after-Ends n k tok (append, rest) le h = tt
file_after-Ends n k tok (word w, rest) le h = omega arith

parseredirs-Ends : (f n : ℕ) (s : Text) → length s ≤ n → n < f → Ends n (parseredirs f s)
unfolding parseredirs
parseredirs-Ends zero n s l b = absurd (omega arith)
parseredirs-Ends (suc f) n s l b =
    if_split (Ends n) (peek (less ∷ greater ∷ []) s)
      (λ seen.
        let shorter = gettoken-lt (less ∷ greater ∷ []) s seen in
        Ends-bind (n - 1) n _ _
          (file_after-Ends (n - 1) (n - 1) (gettoken (skip_space s)).0 _ (omega arith)
            (gettoken-Consumes (gettoken (skip_space s)).1 (n - 1) (omega arith)))
          λ r s' l'.
            Ends-bind (n - 1) n _ (λ rs s''. parsed (r ++ rs) s'')
              (parseredirs-Ends f (n - 1) s' l' (omega arith)) λ rs s'' l''. omega arith)
      (λ other. omega (arith, length-skip_space-le s))

one_arg-Ends :
    (n k : ℕ) (r : Token × Text) (args : List Text) (next : List Text → Parser Cmd) (done : Cmd)
    → n ≤ k
    → Consumes n r
    → ((args' : List Text) (s : Text) → length s < n → Ends k (next args' s))
    → Ends k (one_arg r args next done)
one_arg-Ends n k (end, rest) args next done le h g = omega arith
one_arg-Ends n k (symbol c, rest) args next done le h g = tt
one_arg-Ends n k (append, rest) args next done le h g = tt
one_arg-Ends n k (word w, rest) args next done le h g =
    if_split (Ends k) (leb maxargs (length args + 1)) (λ e. tt) (λ e. g (args ++ w ∷ []) rest h)

parse_args-Ends :
    (f n : ℕ) (args : List Text) (rs : List Redir) (s : Text)
    → length s ≤ n
    → n + 1 < f
    → Ends n (parse_args f args rs s)
unfolding parse_args
parse_args-Ends zero n args rs s l b = absurd (omega arith)
parse_args-Ends (suc f) n args rs s l b =
    if_split (Ends n) (peek (bar ∷ rparen ∷ amp ∷ semicolon ∷ []) s)
      (λ stop. omega (arith, length-skip_space-le s))
      (λ go.
        one_arg-Ends n n (gettoken (skip_space s)) args _ _ (omega arith)
          (gettoken-Consumes (skip_space s) n (omega (arith, length-skip_space-le s)))
          λ args' s' l'.
            Ends-bind (n - 1) n (parseredirs f s') (λ more s''. parse_args f args' (rs ++ more) s'')
              (parseredirs-Ends f (n - 1) s' (omega arith) (omega arith))
              λ more s'' l''.
                Ends-le (n - 1) n (parse_args f args' (rs ++ more) s'') (omega arith)
                  (parse_args-Ends f (n - 1) args' (rs ++ more) s'' l'' (omega arith)))

parse_backs-Ends :
    (f n : ℕ) (cmd : Cmd) (s : Text) → length s ≤ n → n < f → Ends n (parse_backs f cmd s)
unfolding parse_backs
parse_backs-Ends zero n cmd s l b = absurd (omega arith)
parse_backs-Ends (suc f) n cmd s l b =
    if_split (Ends n) (peek (amp ∷ []) s)
      (λ seen.
        let shorter = gettoken-lt (amp ∷ []) s seen in
        Ends-le (n - 1) n (parse_backs f (backcmd cmd) (gettoken (skip_space s)).1) (omega arith) (
          parse_backs-Ends f (n - 1) (backcmd cmd) (gettoken (skip_space s)).1 (omega arith)
            (omega arith)))
      (λ other. omega (arith, length-skip_space-le s))

mutual
  unfolding parseline

  parseline-Ends : (f n : ℕ) (s : Text) → length s ≤ n → 4 * n + 4 < f → Ends n (parseline f s)
  parseline-Ends zero n s l b = absurd (omega arith)
  parseline-Ends (suc f) n s l b =
      Ends-bind n n (parsepipe f s) _ (parsepipe-Ends f n s l (omega arith)) λ first s1 l1.
        Ends-bind n n (parse_backs f first s1) _ (parse_backs-Ends f n first s1 l1 (omega arith))
          λ cmd s2 l2.
            if_split (Ends n) (peek (semicolon ∷ []) s2)
              (λ seen.
                let shorter = gettoken-lt (semicolon ∷ []) s2 seen in
                Ends-bind (n - 1) n (parseline f (gettoken (skip_space s2)).1)
                  (λ rest s3. parsed (listcmd cmd rest) s3)
                  (parseline-Ends f (n - 1) (gettoken (skip_space s2)).1 (omega arith)
                    (omega arith))
                  λ rest s3 l3. omega arith)
              (λ other. omega (arith, length-skip_space-le s2))

  parsepipe-Ends : (f n : ℕ) (s : Text) → length s ≤ n → 4 * n + 3 < f → Ends n (parsepipe f s)
  parsepipe-Ends zero n s l b = absurd (omega arith)
  parsepipe-Ends (suc f) n s l b =
      Ends-bind n n (parseexec f s) _ (parseexec-Ends f n s l (omega arith)) λ cmd s1 l1.
        if_split (Ends n) (peek (bar ∷ []) s1)
          (λ seen.
            let shorter = gettoken-lt (bar ∷ []) s1 seen in
            Ends-bind (n - 1) n (parsepipe f (gettoken (skip_space s1)).1)
              (λ right s2. parsed (pipecmd cmd right) s2)
              (parsepipe-Ends f (n - 1) (gettoken (skip_space s1)).1 (omega arith) (omega arith))
              λ right s2 l2. omega arith)
          (λ other. omega (arith, length-skip_space-le s1))

  parseblock-Ends : (f n : ℕ) (s : Text) → length s ≤ n → 4 * n + 1 < f → Ends n (parseblock f s)
  parseblock-Ends zero n s l b = absurd (omega arith)
  parseblock-Ends (suc f) n s l b =
      if_split (Ends n) (peek (lparen ∷ []) s)
        (λ seen.
          let shorter = gettoken-lt (lparen ∷ []) s seen in
          Ends-bind (n - 1) n (parseline f (gettoken (skip_space s)).1) _
            (parseline-Ends f (n - 1) (gettoken (skip_space s)).1 (omega arith) (omega arith))
            λ cmd s1 l1.
              if_split (Ends n) (peek (rparen ∷ []) s1)
                (λ closed.
                  let shorter' = gettoken-lt (rparen ∷ []) s1 closed in
                  Ends-bind (n - 1) n (parseredirs f (gettoken (skip_space s1)).1)
                    (λ rs s2. parsed (redirected cmd rs) s2)
                    (parseredirs-Ends f (n - 1) (gettoken (skip_space s1)).1 (omega arith)
                      (omega arith))
                    λ rs s2 l2. omega arith)
                (λ open_still. tt))
        (λ other. tt)

  parseexec-Ends : (f n : ℕ) (s : Text) → length s ≤ n → 4 * n + 2 < f → Ends n (parseexec f s)
  parseexec-Ends zero n s l b = absurd (omega arith)
  parseexec-Ends (suc f) n s l b =
      let trimmed = length-skip_space-le s in
      if_split (Ends n) (peek (lparen ∷ []) s)
        (λ block. parseblock-Ends f n (skip_space s) (omega arith) (omega arith))
        (λ simple.
          Ends-bind n n (parseredirs f (skip_space s)) (λ rs s1. parse_args f [] rs s1)
            (parseredirs-Ends f n (skip_space s) (omega arith) (omega arith))
            λ rs s1 l1. parse_args-Ends f n [] rs s1 l1 (omega arith))

finished :
    (cmd : Cmd) (rest : Text)
    → ((c : Cmd) × (finish cmd rest ≡ parsed c []))
      ⊎ ((why : String) × (finish cmd rest ≡ panics why))
finished cmd [] = inl (cmd, refl)
finished cmd (c ∷ rest) = inr ("syntax", refl)

whole :
    (n : ℕ) (m : Parsed Cmd)
    → Ends n m
    → let r = m >>= λ cmd rest. finish cmd (skip_space rest) in
      ((c : Cmd) × (r ≡ parsed c [])) ⊎ ((why : String) × (r ≡ panics why))
whole n (parsed cmd rest) h = finished cmd (skip_space rest)
whole n (panics why) h = inr (why, refl)
whole n no_fuel h = absurd h

-- With fuel for four calls a character, and five more, `parsecmd` reads the whole text or panics.
pub parsecmd_total :
    (s : Text) (fuel : ℕ)
    → 4 * length s + 4 < fuel
    → ((cmd : Cmd) × (parsecmd fuel s ≡ parsed cmd []))
      ⊎ ((why : String) × (parsecmd fuel s ≡ panics why))
unfolding parsecmd
parsecmd_total s fuel b =
    whole (length s) (parseline fuel s) (parseline-Ends fuel (length s) s (omega arith) b)
