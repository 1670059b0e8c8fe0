-- ===== src/Log/Recover.antt =====
-- Recovery at boot: the log of the header is redone, whether or not recovery is itself cut off.
use os.Prelude.{
  ℕ, ◌<◌, ◌≡◌, refl, sym, ◌∙◌, inl, inr, false, List, [], ◌∷◌, ◌==◌, arith, Bool-cases,
}
use os.Log.{Machine, install_loop, install_trans, write_head, read_head, recover_from_log, reboot}
use os.Log.Redo.{has, IsLog, redo, view, redo_cong, redo_absent}
use os.Log.Install.{Installed, install_loop-Installed}

-- The log's blocks lie above `start`, so a change of home blocks alone leaves what they redo.
has-below : (start k : ℕ) (ss : List ℕ) → IsLog start ss → start < k → has k ss ≡ false
has-below start k [] l above = refl
has-below start k (s ∷ ss) l above = ground (arith, has-below start k ss l.2 above)

module _ {B : Type 0} where
  pub view-Installed :
      (tail : ℕ) (ss : List ℕ) {m n : Machine B}
      → IsLog m.start ss
      → Installed tail ss m n
      → (t : ℕ) → redo m.start tail ss n.disk t ≡ redo m.start tail ss m.disk t
  view-Installed tail ss {m} {n} l done t =
      redo_cong m.start tail ss n.disk m.disk t
        (λ k above. done.others k (has-below m.start k ss l above)) (done.others t)

  -- Clearing the header after an installation whose log has the view `f`.
  pub view-cleared :
      (ss : List ℕ) {m n : Machine B} (t : ℕ)
      → IsLog m.start ss
      → Installed 0 ss m n
      → n.head ≡ ss
      → redo m.start 0 ss m.disk t ≡ redo m.start 0 ss m.cache t
      → view (write_head (record n { lh = [] })) t ≡ redo m.start 0 ss m.disk t
  unfolding write_head
  view-cleared ss {m} {n} t l done head same = elim (Bool-cases (n.fuse == 0)) [
    | inl dead ↦ rw (dead, head, done.start) (view-Installed 0 ss l done t)
    | inr live ↦ rw live (elim (Bool-cases (has t ss)) [
      | inl h ↦ done.power (ground arith) t h ∙ done.cache t ∙ sym same
      | inr h ↦ done.others t h ∙ sym (redo_absent m.start 0 ss m.disk t h)
    ])
  ]

  pub cache-write_head : (n : Machine B) (t : ℕ) → (write_head n).cache t ≡ n.cache t
  unfolding write_head
  cache-write_head n t = ground arith

  -- After recovery every block reads as the log of the disk's header says, and a disk that is read
  -- after recovery was cut off anywhere stands for the same blocks.
  pub recover_lem :
      (k : ℕ) (m : Machine B) (t : ℕ)
      → IsLog m.start m.head
      → ((recover_from_log (reboot k m)).cache t ≡ view m t)
        × (view (recover_from_log (reboot k m)) t ≡ view m t)
  unfolding recover_from_log reboot
  recover_lem k m t l =
      let b : Machine B = read_head (reboot k m) in
      let done : Installed 0 m.head b (install_loop 0 m.head b) =
        install_loop-Installed 0 m.head b l in
      (
        cache-write_head (record (install_trans b) { lh = [] }) t ∙ done.cache t,
        view-cleared m.head t l done done.head refl,
      )
