-- ===== src/Meta/Local/Merge/Queue.antt =====
-- src/meta/meta_local_mem.cpp: clear_unsync_dentry on a sound tree takes each dentry from its queue
-- at most once, so that the addresses given out bound its rounds.
use catfs.Common.{
  ℕ, zero, suc, ◌+◌, ◌<◌, ◌≡◌, refl, sym, ap, subst, ◌∙◌, Bool, true, false, not, ◌&&◌, some, List,
  [], ◌∷◌, ◌++◌, Text, arith, text_key, lookup, Once, length, length-append, ok, Ends, ends_ok,
  ends_fault, Ends-then, Ends-if, Ends-back, Ends-option_at, Option, Option-cases, Bool-cases, inl,
  inr, ◌==◌, if◌then◌else◌,
}
use catfs.Stor.{Timespec}
use catfs.Meta.Heap.{
  Ptr, Dentry, Heap, read_dentry, read_inode, write_dentry, free_dentry, free_inode, now, at,
}
use catfs.Meta.Dentry
use catfs.Meta.Local.{LocalMemMeta, on_heap}
use catfs.Meta.Local.Invariant.{IsSound}
use catfs.Meta.Local.Invariant.Dentries
use catfs.Meta.Local.Invariant.Dentries.{IsMild}
use catfs.Meta.Local.Invariant.Methods.{read_dentry-then}
use catfs.Meta.Local.Merge.{keep_child, clear_loop, clear_one, clear_queue, clear_unsync_dentry}
use catfs.Meta.Local.Merge.Walk.{
  mem, mark, unseen, unseen-le, unseen-mark, IsWalk, start-IsWalk, pop-IsWalk, push-IsWalk, Pending,
  mark-Pending, all-Pending,
}

-- The heap has no other dentries than `h₀` had, and they are linked as they were.
pub record IsLike (h₀ h : Heap) : Type 0 where
  pub same_end : h.next_ptr ≡ h₀.next_ptr
  pub linked :
      (p : Ptr) (d : Dentry)
      → h.dentries p ≡ some d
      → (d₀ : Dentry) × (h₀.dentries p ≡ some d₀)
        × (d.name ≡ d₀.name)
        × (d.parent ≡ d₀.parent)
        × (d.children ≡ d₀.children)

abbrev Like : Heap → LocalMemMeta → Type 0
Like h₀ s = IsLike h₀ s.heap

write-IsLike :
    (h₀ h : Heap) (p : Ptr) (d d' : Dentry) (n : ℕ)
    → IsLike h₀ h
    → h.dentries p ≡ some d
    → d'.name ≡ d.name
    → d'.parent ≡ d.parent
    → d'.children ≡ d.children
    → IsLike h₀ (record h { dentries = at h.dentries p (some d'); clock_reads = n })
write-IsLike h₀ h p d d' n like at_p name parent children = record {
  same_end = like.same_end;
  linked = λ q e f. elim (Bool-cases (p == q)) [
    | inl same ↦
        let (d₀, at₀, n, u, c) = like.linked p d at_p in
        (d₀, ground arith, ground arith, ground arith, ground arith)
    | inr other ↦ like.linked q e (ground arith)
  ];
}

-- The steps of the loop that keep the links.
module _ {F : Type 0} {Q : LocalMemMeta → Type 0} (h₀ : Heap) (s : LocalMemMeta) (like : Like h₀ s)
    (p : Ptr) where
  write_dentry-Like :
      (f : Dentry → Dentry) → IsMild f → Ends F (λ _. Like h₀) Q (on_heap (write_dentry p f) s)
  unfolding write_dentry read_dentry
  write_dentry-Like f mild = elim (Option-cases (s.heap.dentries p)) [
    | inl e ↦ rw e ends_fault
    | inr (d, e) ↦
        let (n, u, i, c) = mild d in
        rw e (ends_ok (write-IsLike h₀ s.heap p d (f d) s.heap.clock_reads like e n u c))
  ]

  inc_ttl-Like :
      (clock : ℕ → Timespec) (duration : ℕ)
      → Ends F (λ _. Like h₀) Q (on_heap (Dentry.inc_ttl clock p duration) s)
  unfolding Dentry.inc_ttl Dentry.set_ttl now write_dentry read_dentry
  inc_ttl-Like clock duration = elim (Option-cases (s.heap.dentries p)) [
    | inl e ↦ rw e ends_fault
    | inr (d, e) ↦ rw e (ends_ok (write-IsLike h₀ s.heap p d _ _ like e refl refl refl))
  ]

  is_dir-Like : Ends F (λ _. Like h₀) Q (on_heap (Dentry.is_dir p) s)
  unfolding Dentry.is_dir
  is_dir-Like = elim (Option-cases (s.heap.dentries p)) [
    | inl e ↦ unfold read_dentry in rw e ends_fault
    | inr (d, e) ↦ elim (Option-cases (s.heap.inodes d.inode)) [
      | inl f ↦ unfold read_dentry read_inode in rw (e, f) ends_fault
      | inr (i, f) ↦ unfold read_dentry read_inode in rw (e, f) (ends_ok like)
    ]
  ]

  child_count-Like : Ends F (λ _. Like h₀) Q (on_heap (Dentry.child_count p) s)
  unfolding Dentry.child_count read_dentry
  child_count-Like = elim (Option-cases (s.heap.dentries p)) [
    | inl e ↦ rw e ends_fault
    | inr (d, e) ↦ rw e (ends_ok like)
  ]

  complete_if-Like :
      (b : Bool)
      → Ends F (λ _. Like h₀) Q ((if b then on_heap (write_dentry p Dentry.complete) else ok tt) s)
  unfolding Dentry.complete
  complete_if-Like b =
      Ends-if b _ _ _ (write_dentry-Like Dentry.complete (λ d. (refl, refl, refl, refl)))
        (ends_ok like)

-- Removing ends, whatever it does.
remove_child-Ends :
    {F : Type 0} {Q : Heap → Type 0} (p : Ptr) (name : Text) (h : Heap)
    → Ends F (λ _ _. Unit {0}) Q (Dentry.remove_child p name h)
unfolding Dentry.remove_child write_dentry free_dentry free_inode
remove_child-Ends p name h = Dentries.read_dentry-then p h _ (λ d e.
    Ends-option_at (lookup name d.children) _ _ h (ends_ok tt) (λ c.
      Dentries.read_dentry-then c h _ (λ t f.
        Ends-then {P' = λ _ _. Unit {0}} (Dentries.read_inode-then t.inode h _ (λ i g. ends_ok tt))
          (λ _ h _.
            Ends-then {P' = λ _ _. Unit {0}} (Dentries.read_dentry-then c h _ (λ t f. ends_ok tt))
              (λ _ h _. Dentries.read_dentry-then p h _ (λ d e. ends_ok tt))))))

-- How much of the tree is before the queue `q`.
abbrev work : Heap → (Ptr → Bool) → List Ptr → ℕ
work h₀ seen q = unseen h₀.next_ptr seen + length q

abbrev Walked : Heap → (root : Ptr) → ℕ → List Ptr → LocalMemMeta → Type 0
Walked h₀ root n q s =
    Like h₀ s × ((seen : Ptr → Bool) × IsWalk h₀ root seen q × (work h₀ seen q ≡ n))

module _ {F : Type 0} {Q : LocalMemMeta → Type 0} {least : Ptr} {index : ℕ → Option Ptr}
    (clock : ℕ → Timespec) (h₀ : Heap) (sound : IsSound least index h₀) (root : Ptr) where
  clear_loop-Walked :
      (n : ℕ) (p : Ptr) (cs : List (Text × Ptr)) (q : List Ptr) (seen : Ptr → Bool)
      (s : LocalMemMeta)
      → Like h₀ s
      → IsWalk h₀ root seen q
      → work h₀ seen q ≡ n
      → seen p ≡ true
      → mem p q ≡ false
      → Pending h₀ root p cs seen
      → Ends F (Walked h₀ root n) Q (clear_loop clock p cs q s)
  unfolding clear_loop keep_child
  clear_loop-Walked n p [] q seen s like w sum at_p out pending = ends_ok (like, (seen, w, sum))
  clear_loop-Walked n p ((k, child) ∷ rest) q seen s like w sum at_p out (this, once, pending) =
      read_dentry-then child s _ (λ c e.
        let (cd, at₀, named, up, _) = like.linked child c e in
        let (name, parent, new) = this cd at₀ in
        Ends-if (not c.synced) _ _ _
          (Ends-then {P' = λ _ _. Unit {0}}
            (Ends-back (λ s. s.heap) (λ h s. record s { heap = h }) s
              (remove_child-Ends p c.name s.heap))
            (λ _ s h. ends_fault))
          (Ends-then (write_dentry-Like h₀ s like child _ (λ d. (refl, refl, refl, refl))) (λ _ t l.
            Ends-then (is_dir-Like h₀ t l child) (λ dir s l.
              Ends-then (inc_ttl-Like h₀ s l child clock t.opt.dcache_timeout) (λ _ s l.
                Ends-then (child_count-Like h₀ s l child) (λ count s l.
                  Ends-then (complete_if-Like h₀ s l child (dir && not (count == 0))) (λ _ s l.
                    elim dir
                      as (λ b.
                        Ends F (Walked h₀ root n) Q
                          (clear_loop clock p rest (if b then q ++ child ∷ [] else q) s)) [
                            | true ↦
                                let lt : p < child =
                                  omega (arith, sound.parent_below child cd at₀) in
                                let (w', out') =
                                  push-IsWalk h₀ root seen q p child cd w at_p out at₀ parent lt
                                    new in
                                clear_loop-Walked n p rest (q ++ child ∷ []) (mark seen child) s l
                                  w'
                                  (omega (
                                    arith,
                                    length-append {0} q (child ∷ []),
                                    unseen-mark h₀.next_ptr seen child,
                                    sound.dentry_below child cd at₀,
                                  ))
                                  (ground arith) out'
                                  (mark-Pending h₀ root p seen rest k child cd once at₀ name
                                    pending)
                            | false ↦ clear_loop-Walked n p rest q seen s l w sum at_p out pending
                          ])))))))

  clear_one-Walked :
      (n : ℕ) (p : Ptr) (q : List Ptr) (s : LocalMemMeta)
      → Walked h₀ root (suc n) (p ∷ q) s
      → Ends F (Walked h₀ root n) Q (clear_one clock p q s)
  unfolding clear_one
  clear_one-Walked n p q s (like, (seen, w, sum)) =
      Ends-then (write_dentry-Like h₀ s like p _ (λ d. (refl, refl, refl, refl))) (λ _ s l.
        Ends-then (inc_ttl-Like h₀ s l p clock s.opt.dcache_timeout) (λ _ s l.
          Ends-then (child_count-Like h₀ s l p) (λ count s l.
            Ends-then (complete_if-Like h₀ s l p (not (count == 0))) (λ _ s l.
              read_dentry-then p s _ (λ d e.
                let (d₀, at₀, _, _, children) = l.linked p d e in
                clear_loop-Walked n p d.children q seen s l (pop-IsWalk h₀ root seen p q w)
                  (omega arith) (w.queued p (ground arith)) w.once.0
                  (all-Pending h₀ sound root p d₀ q seen d.children at₀ w
                    (λ k c f. ap (lookup k) (sym children) ∙ f)
                    (subst Once (sym children) (sound.child_once p d₀ at₀))))))))

  -- Each round takes one dentry from the queue and queues only what was not queued before.
  clear_queue-Walked :
      (fuel n : ℕ) (q : List Ptr) (s : LocalMemMeta)
      → Walked h₀ root n q s
      → n < fuel
      → Ends F (λ _ _. Unit {0}) Q (clear_queue clock fuel q s)
  unfolding clear_queue
  clear_queue-Walked zero n q s w lt = absurd (omega arith)
  clear_queue-Walked (suc fuel) n [] s w lt = ends_ok tt
  clear_queue-Walked (suc fuel) zero (p ∷ q) s (like, (seen, w, sum)) lt = absurd (omega arith)
  clear_queue-Walked (suc fuel) (suc n) (p ∷ q) s w lt =
      Ends-then (clear_one-Walked n p q s w)
        (λ q' s w. clear_queue-Walked fuel n q' s w (omega arith))

module _ {F : Type 0} {Q : LocalMemMeta → Type 0} {least : Ptr} {index : ℕ → Option Ptr}
    (clock : ℕ → Timespec) where
  -- On a sound tree the walk ends within its fuel.
  pub clear_unsync_dentry-Ends :
      (p : Ptr) (s : LocalMemMeta)
      → IsSound least index s.heap
      → Ends F (λ _ _. Unit {0}) Q (clear_unsync_dentry clock p s)
  unfolding clear_unsync_dentry
  clear_unsync_dentry-Ends p s sound =
      let n = s.heap.next_ptr in
      clear_queue-Walked clock s.heap sound p (suc (suc n)) (work s.heap (λ c. p == c) (p ∷ []))
        (p ∷ []) s
        (
          record { same_end = refl; linked = λ p d e. (d, e, refl, refl, refl) },
          ((λ c. p == c), start-IsWalk s.heap p, refl),
        )
        (omega (arith, unseen-le n (λ c. p == c)))
