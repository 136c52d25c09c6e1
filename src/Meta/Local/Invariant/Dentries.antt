-- ===== src/Meta/Local/Invariant/Dentries.antt =====
-- src/types/dentry.h: the methods of Dentry keep the tree and its index sound.
use catfs.Common.{
  ℕ, zero, suc, ◌<◌, ◌≡◌, refl, Option, none, some, List, [], ◌∷◌, Text, arith, text_key, lookup,
  insert, erase, Cmd, ok, fault, Ends, ends_ok, Ends-as, ends_fault, Ends-then, Ends-if,
  Option-cases, inl, inr, and_then, ◌==◌,
}
use native.Mathlib.Decide.{ℕ_discrete}
use catfs.Stor.{Timespec}
use catfs.Meta.Heap.{
  Ptr, null, Inode, Dentry, Dirent, Heap, fresh_dentry, at, read_dentry, read_inode, write_dentry,
  write_inode, new_dentry, free_dentry, free_inode, now,
}
use catfs.Meta.Dentry
use catfs.Meta.Local.Invariant.{IsSound, clock-IsSound, inode-IsSound}
use catfs.Meta.Local.Invariant.Changes.{dentry-IsSound, child-IsSound, erase-IsSound}

-- What a change of a dentry leaves as it is.
abbrev pub IsMild : (Dentry → Dentry) → Type 0
IsMild f =
    (d : Dentry)
    → ((f d).name ≡ d.name)
      × ((f d).parent ≡ d.parent)
      × ((f d).inode ≡ d.inode)
      × ((f d).children ≡ d.children)

-- A read goes on with what is at the address, if anything is.
module _ {F : Type 0} {B : Type 0} {P : B → Heap → Type 0} {Q : Heap → Type 0} (p : Ptr)
    (h : Heap) where
  pub read_dentry-then :
      (k : Dentry → Cmd Heap B)
      → ((d : Dentry) → h.dentries p ≡ some d → Ends F P Q (k d h))
      → Ends F P Q (and_then (read_dentry p h) k)
  unfolding read_dentry
  read_dentry-then k next = elim (Option-cases (h.dentries p)) [
    | inl e ↦ rw e ends_fault
    | inr (d, e) ↦ rw e (next d e)
  ]

  pub read_inode-then :
      (k : Inode → Cmd Heap B)
      → ((i : Inode) → h.inodes p ≡ some i → Ends F P Q (k i h))
      → Ends F P Q (and_then (read_inode p h) k)
  unfolding read_inode
  read_inode-then k next = elim (Option-cases (h.inodes p)) [
    | inl e ↦ rw e ends_fault
    | inr (i, e) ↦ rw e (next i e)
  ]

module _ {F : Type 0} {Q : Heap → Type 0} {least : Ptr} {index : ℕ → Option Ptr} (h : Heap)
    (sound : IsSound least index h) where
  pub write_dentry-Ends :
      (p : Ptr) (f : Dentry → Dentry)
      → IsMild f
      → Ends F (λ _. IsSound least index) Q (write_dentry p f h)
  unfolding write_dentry
  write_dentry-Ends p f mild =
      read_dentry-then p h _
        (λ d e. let (n, q, i, c) = mild d in ends_ok (dentry-IsSound sound p d (f d) e n q i c))

  pub write_inode-Ends :
      (p : Ptr) (f : Inode → Inode)
      → ((i : Inode) → (f i).ino ≡ i.ino)
      → Ends F (λ _. IsSound least index) Q (write_inode p f h)
  unfolding write_inode
  write_inode-Ends p f same =
      read_inode-then p h _ (λ i e. ends_ok (inode-IsSound sound p i (f i) e (same i)))

  pub now-Ends : (clock : ℕ → Timespec) → Ends F (λ _. IsSound least index) Q (now clock h)
  unfolding now
  now-Ends clock = ends_ok (clock-IsSound sound (suc h.clock_reads))

  pub read_dentry-Ends : (p : Ptr) → Ends F (λ _. IsSound least index) Q (read_dentry p h)
  unfolding read_dentry
  read_dentry-Ends p = elim (Option-cases (h.dentries p)) [
    | inl e ↦ rw e ends_fault
    | inr (d, e) ↦ rw e (ends_ok sound)
  ]

  pub read_inode-Ends : (p : Ptr) → Ends F (λ _. IsSound least index) Q (read_inode p h)
  unfolding read_inode
  read_inode-Ends p = elim (Option-cases (h.inodes p)) [
    | inl e ↦ rw e ends_fault
    | inr (i, e) ↦ rw e (ends_ok sound)
  ]

  pub get_child-Ends :
      (p : Ptr) (name : Text) → Ends F (λ _. IsSound least index) Q (Dentry.get_child p name h)
  unfolding Dentry.get_child
  get_child-Ends p name = read_dentry-then p h _ (λ d e. ends_ok sound)

  pub add_child-Ends :
      (p : Ptr) (name : Text) (inode : Ptr)
      → p < h.next_ptr
      → inode < h.next_ptr
      → Ends F (λ _. IsSound least index) Q (Dentry.add_child p name inode h)
  unfolding Dentry.add_child new_dentry write_dentry read_dentry
  add_child-Ends p name inode here below = elim (Option-cases (h.dentries p)) [
    | inl e ↦
        let run : Dentry.add_child p name inode h ≡ fault = ground arith in Ends-as run ends_fault
    | inr (d, e) ↦
        let next = h.next_ptr in
        let run : Dentry.add_child p name inode h
            ≡ ok next (record h {
              dentries =
                  at
                    (at (at h.dentries next (some (fresh_dentry name inode))) next
                      (some (record (fresh_dentry name inode) { parent = p })))
                    p (some (record d { children = insert name next d.children }));
              next_ptr = suc next;
            }) =
          ground arith in
        Ends-as run (ends_ok (child-IsSound sound p d name inode e below))
  ]

  remove_found-Ends :
      (p : Ptr) (name : Text) (d : Dentry) (c : Ptr)
      → h.dentries p ≡ some d
      → lookup name d.children ≡ some c
      → Ends F (λ _. IsSound least index) Q (Dentry.remove_child p name h)
  unfolding Dentry.remove_child read_dentry read_inode write_dentry free_dentry free_inode
  remove_found-Ends p name d c e found =
      let faults : Dentry.remove_child p name h ≡ fault
          → Ends F (λ _. IsSound least index) Q (Dentry.remove_child p name h) =
        λ run. Ends-as run ends_fault in
      elim (Option-cases (h.dentries c)) [
        | inl f ↦ faults (ground arith)
        | inr (t, f) ↦ elim (Option-cases (h.inodes t.inode)) [
          | inl g ↦ faults (ground arith)
          | inr (i, g) ↦ elim (ℕ_discrete c p) [
            | yes same ↦ faults (ground arith)
            | no other ↦
                let run : Dentry.remove_child p name h
                    ≡ ok tt (record h {
                      inodes = at h.inodes t.inode none;
                      dentries =
                          at (at h.dentries c none) p
                            (some (record d { children = erase name d.children }));
                    }) =
                  ground arith in
                Ends-as run (ends_ok (erase-IsSound sound p c d t name e f other))
          ]
        ]
      ]

  pub remove_child-Ends :
      (p : Ptr) (name : Text) → Ends F (λ _. IsSound least index) Q (Dentry.remove_child p name h)
  unfolding Dentry.remove_child read_dentry
  remove_child-Ends p name = elim (Option-cases (h.dentries p)) [
    | inl e ↦
        let run : Dentry.remove_child p name h ≡ fault = ground arith in Ends-as run ends_fault
    | inr (d, e) ↦ elim (Option-cases (lookup name d.children)) [
      | inl f ↦
          let run : Dentry.remove_child p name h ≡ ok tt h = ground arith in
          Ends-as run (ends_ok sound)
      | inr (c, f) ↦ remove_found-Ends p name d c e f
    ]
  ]

  pub is_dir-Ends : (p : Ptr) → Ends F (λ _. IsSound least index) Q (Dentry.is_dir p h)
  unfolding Dentry.is_dir
  is_dir-Ends p = read_dentry-then p h _ (λ d e. read_inode-then d.inode h _ (λ i f. ends_ok sound))

  pub child_count-Ends : (p : Ptr) → Ends F (λ _. IsSound least index) Q (Dentry.child_count p h)
  unfolding Dentry.child_count
  child_count-Ends p = read_dentry-then p h _ (λ d e. ends_ok sound)

  pub is_root-Ends : (p : Ptr) → Ends F (λ _. IsSound least index) Q (Dentry.is_root p h)
  unfolding Dentry.is_root
  is_root-Ends p =
      read_dentry-then p h _ (λ d e. read_inode-then d.inode h _ (λ i f. ends_ok sound))

-- Methods of several steps, which keep what each of their steps keeps.
module _ {F : Type 0} {Q : Heap → Type 0} {least : Ptr} {index : ℕ → Option Ptr} (h : Heap)
    (sound : IsSound least index h) where
  pub is_expired-Ends :
      (clock : ℕ → Timespec) (p : Ptr)
      → Ends F (λ _. IsSound least index) Q (Dentry.is_expired clock p h)
  unfolding Dentry.is_expired
  is_expired-Ends clock p =
      Ends-then (now-Ends h sound clock)
        (λ t h s. Ends-then (read_dentry-Ends h s p) (λ d h s. ends_ok s))

  pub inc_ttl-Ends :
      (clock : ℕ → Timespec) (p : Ptr) (duration : ℕ)
      → Ends F (λ _. IsSound least index) Q (Dentry.inc_ttl clock p duration h)
  unfolding Dentry.inc_ttl Dentry.set_ttl
  inc_ttl-Ends clock p duration =
      Ends-then (now-Ends h sound clock)
        (λ t h s. write_dentry-Ends h s p _ (λ d. (refl, refl, refl, refl)))

  pub update-Ends :
      (p : Ptr) (size : ℕ) (ctime mtime : Timespec)
      → Ends F (λ _. IsSound least index) Q (Dentry.update p size ctime mtime h)
  unfolding Dentry.update
  update-Ends p size ctime mtime = read_dentry-then p h _ (λ d e.
      Ends-then (write_inode-Ends h sound d.inode _ (λ i. refl)) (λ _ h s.
        Ends-then (write_inode-Ends h s d.inode _ (λ i. refl))
          (λ _ h s. write_inode-Ends h s d.inode _ (λ i. refl))))

  path_loop-Ends :
      (fuel : ℕ) (p : Ptr) (path : Text) (h : Heap)
      → IsSound least index h
      → p < fuel
      → Ends F (λ _. IsSound least index) Q (Dentry.path_loop fuel p path h)
  unfolding Dentry.path_loop
  path_loop-Ends zero p path h sound below = absurd (omega arith)
  path_loop-Ends (suc fuel) p path h sound below = Ends-if (p == null) _ _ _ (ends_ok sound) (
      Ends-then (is_root-Ends h sound p) (λ top h s. Ends-if top _ _ _ (ends_ok s) (
        read_dentry-then p h _
          (λ d e. path_loop-Ends fuel d.parent _ h s (omega (arith, s.parent_below p d e))))))

  pub get_full_path-Ends :
      (p : Ptr) → Ends F (λ _. IsSound least index) Q (Dentry.get_full_path p h)
  unfolding Dentry.get_full_path
  get_full_path-Ends p = Ends-then (is_root-Ends h sound p) (λ top h s.
      Ends-if top _ _ _ (ends_ok s) (
        read_dentry-then p h _ (λ d e.
          path_loop-Ends (suc h.next_ptr) d.parent d.name h s
            (omega (arith, s.parent_below p d e, s.dentry_below p d e)))))

  list_loop-Ends :
      (cs : List (Text × Ptr)) (ds : List Dirent) (h : Heap)
      → IsSound least index h
      → Ends F (λ _. IsSound least index) Q (Dentry.list_loop cs ds h)
  unfolding Dentry.list_loop
  list_loop-Ends [] ds h sound = ends_ok sound
  list_loop-Ends ((_, v) ∷ cs) ds h sound =
      read_dentry-then v h _ (λ d e. list_loop-Ends cs _ h sound)

  pub children_list-Ends :
      (p : Ptr) (ds : List Dirent)
      → Ends F (λ _. IsSound least index) Q (Dentry.children_list p ds h)
  unfolding Dentry.children_list
  children_list-Ends p ds = read_dentry-then p h _ (λ d e. list_loop-Ends d.children ds h sound)

-- With the slash, when that without it has been taken.
module _ {F : Type 0} {Q : Heap → Type 0} {least : Ptr} {index : ℕ → Option Ptr} (h : Heap)
    (sound : IsSound least index h) where
  pub get_full_path_with_slash-Ends :
      (p : Ptr) → Ends F (λ _. IsSound least index) Q (Dentry.get_full_path_with_slash p h)
  unfolding Dentry.get_full_path_with_slash
  get_full_path_with_slash-Ends p = Ends-then (is_root-Ends h sound p) (λ top h s.
      Ends-if top _ _ _ (ends_ok s) (Ends-then (get_full_path-Ends h s p) (λ path h s. ends_ok s)))
