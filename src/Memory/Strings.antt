-- ===== src/Memory/Strings.antt =====
-- What `strlen` and `safestrcpy` do to C strings.
use os.Prelude.{
  ℕ, zero, suc, ◌+◌, ◌-◌, ◌≤◌, ◌<◌, ◌≡◌, refl, sym, ◌∙◌, ap, ◌≢◌, ◌⊎◌, inl, inr, true, false, some,
  ◌==◌, arith, Bool-cases,
}
use os.Memory.{Memory, store, copy_then_end, safestrcpy, strlen}
use os.Memory.Ranges.{store_here, store_else}

-- At `s` there is a string of `k` characters before the NUL.
pub record IsString (m : Memory) (s k : ℕ) : Type 0 where
  pub characters : (i : ℕ) → i < k → m (s + i) ≢ 0
  pub end : m (s + k) ≡ 0

-- Of a string of `k` characters `strlen` returns `k`, when it may look at more than `k` characters.
pub strlen_lem :
    (fuel : ℕ) (m : Memory) (s k : ℕ) → IsString m s k → k < fuel → strlen fuel m s ≡ some k
unfolding strlen
strlen_lem zero m s k str l = absurd (omega arith)
strlen_lem (suc fuel) m s k str l = elim (Bool-cases (k == 0)) [
  | inl none_left ↦
      let nul : m s ≡ 0 = ap m (ground arith) ∙ str.end in
      let test : (m s == 0) ≡ true = ground (arith, nul) in rw test (ap some (ground arith))
  | inr more ↦
      let start : m (s + 0) ≡ m s = ap m (omega arith) in
      let here : (m s == 0) ≡ false = ground (arith, str.characters 0 (ground arith), start) in
      let rest : IsString m (s + 1) (k - 1) = record {
        characters = λ i l e. str.characters (i + 1) (ground arith) (ap m (omega arith) ∙ e);
        end = ap m (ground arith) ∙ str.end;
      } in
      rw (here, strlen_lem fuel m (s + 1) (k - 1) rest (ground arith)) (ap some (ground arith))
]

-- `k` characters are copied from `t` to `s` and ended with a NUL: the whole string at `t`, or as
-- many as there is room for; no byte outside the `room + 1` at `s` is written.
pub record IsCopied (s t room k : ℕ) (m m' : Memory) : Type 0 where
  pub fits : k ≤ room
  pub whole : (m (t + k) ≡ 0) ⊎ (k ≡ room)
  pub copied : (i : ℕ) → i < k → (m' (s + i) ≡ m (t + i)) × (m (t + i) ≢ 0)
  pub ended : m' (s + k) ≡ 0
  pub others : (a : ℕ) → (a < s) ⊎ (s + room < a) → m' a ≡ m a

copy_then_end-IsCopied :
    (s t n : ℕ) (m : Memory)
    → (s + n < t) ⊎ (t + n < s)
    → (k : ℕ) × IsCopied s t n k m (copy_then_end s t n m)
unfolding copy_then_end
copy_then_end-IsCopied s t zero m o = (
  0,
  record {
    fits = omega arith;
    whole = inr refl;
    copied = λ i l. absurd (omega arith);
    ended = store_here s (s + 0) 0 m (omega arith);
    others = λ a out. store_else s a 0 m (elim out [ inl l ↦ omega arith | inr l ↦ omega arith ]);
  },
)
copy_then_end-IsCopied s t (suc n) m o = elim (Bool-cases (m t == 0)) [
  | inl nul ↦
      let m1 = store s (m t) m in
      let start : m (t + 0) ≡ m t = ap m (omega arith) in
      (
        0,
        rw nul (record {
          fits = omega arith;
          whole = inl (ground (arith, start, nul));
          copied = λ i l. absurd (omega arith);
          ended =
              store_else (s + 1) (s + 0) 0 m1 (omega arith)
              ∙ store_here s (s + 0) (m t) m (omega arith)
              ∙ ground arith;
          others = λ a out.
              store_else (s + 1) a 0 m1 (elim out [ inl l ↦ omega arith | inr l ↦ omega arith ])
              ∙ store_else s a (m t) m (elim out [ inl l ↦ omega arith | inr l ↦ omega arith ]);
        }),
      )
  | inr char ↦
      let m1 = store s (m t) m in
      let (k, c) =
        copy_then_end-IsCopied (s + 1) (t + 1) n m1
          (elim o [ inl l ↦ inl (omega arith) | inr l ↦ inr (omega arith) ]) in
      let from : (i : ℕ) → i ≤ n → m1 (t + 1 + i) ≡ m (t + (i + 1)) = λ i l.
        store_else s (t + 1 + i) (m t) m (elim o [ inl b ↦ omega arith | inr b ↦ omega arith ])
        ∙ ap m (omega arith) in
      (
        k + 1,
        rw char (record {
          fits = omega (arith, c.fits);
          whole = elim c.whole [
            | inl e ↦ inl (sym (from k c.fits) ∙ e)
            | inr e ↦ inr (omega (arith, e))
          ];
          copied = λ i l. elim (Bool-cases (i == 0)) [
            | inl e ↦
                let byte : m (t + i) ≡ m t = ap m (ground arith) in
                (
                  c.others (s + i) (inl (ground arith))
                      ∙ store_here s (s + i) (m t) m (ground arith)
                      ∙ sym byte,
                  λ z. ground (arith, byte, z, char),
                )
            | inr e ↦
                let there : copy_then_end (s + 1) (t + 1) n m1 (s + i)
                    ≡ copy_then_end (s + 1) (t + 1) n m1 (s + 1 + (i - 1)) =
                  ap (copy_then_end (s + 1) (t + 1) n m1) (ground arith) in
                let byte : m1 (t + 1 + (i - 1)) ≡ m (t + i) =
                  from (i - 1) (ground (arith, c.fits)) ∙ ap m (ground arith) in
                let (same, nonzero) = c.copied (i - 1) (ground arith) in
                (there ∙ same ∙ byte, λ z. nonzero (byte ∙ z))
          ];
          ended = ap (copy_then_end (s + 1) (t + 1) n m1) (omega arith) ∙ c.ended;
          others = λ a out.
              c.others a (elim out [ inl l ↦ inl (omega arith) | inr l ↦ inr (omega arith) ])
              ∙ store_else s a (m t) m (elim out [ inl l ↦ omega arith | inr l ↦ omega arith ]);
        }),
      )
]

-- `safestrcpy` of a string that the `n` bytes at `s` do not overlap, with room for at least one
-- byte, copies the string or as much as fits in `n - 1` bytes, ends it with a NUL, and writes
-- nothing outside the `n` bytes.
pub safestrcpy-IsCopied :
    (s t n : ℕ) (m : Memory)
    → 0 < n
    → (s + n ≤ t) ⊎ (t + n ≤ s)
    → (k : ℕ) × IsCopied s t (n - 1) k m (safestrcpy s t n m)
unfolding safestrcpy
safestrcpy-IsCopied s t zero m l o = absurd (omega arith)
safestrcpy-IsCopied s t (suc n) m l o =
    let size : suc n - 1 ≡ n = omega arith in
    rw size (
      copy_then_end-IsCopied s t n m
        (elim o [ inl b ↦ inl (omega arith) | inr b ↦ inr (omega arith) ]))
