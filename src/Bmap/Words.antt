-- ===== src/Bmap/Words.antt =====
-- The words of a block.
use os.Prelude.{ℕ, ◌+◌, ◌*◌, ◌/◌, ◌%◌, ◌<◌, ◌≡◌, ◌≢◌, refl, ◌∙◌, ap, arith, ◌==◌, ◌&&◌, true, false}
use os.Blocks.{Disk}
use os.Bmap.{word, byte_of, set_word}

byte_here : (b k v j : ℕ) (d : Disk) → j < 4 → set_word b k v d b (4 * k + j) ≡ byte_of v j
byte_here b k v j d l =
    let at : (b == b && (4 * k + j) / 4 == k) ≡ true = ground arith in
    let low : (4 * k + j) % 4 ≡ j = omega arith in rw (at, low) refl

pub word-set_word : (b k v : ℕ) (d : Disk) → v < 4294967296 → word (set_word b k v d) b k ≡ v
word-set_word b k v d l =
    let d' = set_word b k v d in
    let first : d' b (4 * k) ≡ v % 256 =
      ap (d' b) (omega arith) ∙ byte_here b k v 0 d (omega arith) in
    rw
      (
        first,
        byte_here b k v 1 d (omega arith),
        byte_here b k v 2 d (omega arith),
        byte_here b k v 3 d (omega arith),
      )
      (omega arith)

byte_else :
    (b k v c j : ℕ) (d : Disk) → (c == b && j / 4 == k) ≡ false → set_word b k v d c j ≡ d c j
byte_else b k v c j d h = rw h refl

pub word-else : (b k k' v : ℕ) (d : Disk) → k ≢ k' → word (set_word b k v d) b k' ≡ word d b k'
word-else b k k' v d ne =
    let out : (j : ℕ) → j < 4 → set_word b k v d b (4 * k' + j) ≡ d b (4 * k' + j) = λ j l.
      let at : (4 * k' + j) / 4 ≡ k' = omega arith in
      let other : ((4 * k' + j) / 4 == k) ≡ false = rw at (ground (arith, ne)) in
      byte_else b k v b (4 * k' + j) d (rw other (ground arith)) in
    let d' = set_word b k v d in
    let first : d' b (4 * k') ≡ d b (4 * k') =
      ap (d' b) (omega arith) ∙ out 0 (omega arith) ∙ ap (d b) (omega arith) in
    rw (first, out 1 (omega arith), out 2 (omega arith), out 3 (omega arith)) refl

pub word-ext : (d d' : Disk) (b k : ℕ) → ((j : ℕ) → d' b j ≡ d b j) → word d' b k ≡ word d b k
word-ext d d' b k h = rw (h (4 * k), h (4 * k + 1), h (4 * k + 2), h (4 * k + 3)) refl

pub word-zero : (d : Disk) (b k : ℕ) → ((j : ℕ) → d b j ≡ 0) → word d b k ≡ 0
word-zero d b k h = rw (h (4 * k), h (4 * k + 1), h (4 * k + 2), h (4 * k + 3)) refl
