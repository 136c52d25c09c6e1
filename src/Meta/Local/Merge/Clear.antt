-- ===== src/Meta/Local/Merge/Clear.antt =====
-- src/meta/meta_local_mem.cpp: clear_unsync_dentry when an entry has to go.
use Prim.Native.Nat.{bit_and}
use native.Mathlib.Decide.{ℕ_discrete}
use catfs.Common.{
  ℕ, suc, ◌+◌, ◌≡◌, ◌≢◌, ◌⊎◌, inl, inr, refl, Bool, true, false, not, ◌&&◌, some, List, [], ◌∷◌,
  ◌++◌, arith, Text, Run, Cmd, ok, fault, length, ◌==◌, if◌then◌else◌, Bool-cases, Option-cases, ap,
  ◌∙◌, and_then, pure, length-append,
}
use catfs.Stor.{Timespec}
use catfs.Meta.Heap.{
  Ptr, Dentry, at, now, read_dentry, read_inode, write_dentry, free_dentry, free_inode,
}
use catfs.Meta.Dentry
use catfs.Meta.Dentry.{s_ifdir}
use catfs.Meta.Local.{LocalMemMeta, on_heap}
use catfs.Meta.Local.Merge.{keep_child, clear_loop, clear_one, clear_queue, clear_unsync_dentry}

-- The dentry at `c` is not marked as seen in the backend's listing.
pub record IsUnsynced (s : LocalMemMeta) (c : Ptr) : Type 0 where
  pub dentry : Dentry
  pub holds : s.heap.dentries c ≡ some dentry
  pub unsynced : dentry.synced ≡ false

-- A run that is undefined, or ends in a state in which `c` is still unsynced.
abbrev Kept : {A : Type 0} → Ptr → Run LocalMemMeta A → Type 0
Kept {A} c r = (r ≡ fault) ⊎ ((a : A) × (s' : LocalMemMeta) × (r ≡ ok a s') × IsUnsynced s' c)

module _ {A B : Type 0} where
  fault_after :
      (c : Ptr) (r : Run LocalMemMeta A) (k : A → Cmd LocalMemMeta B)
      → Kept c r
      → ((a : A) (s' : LocalMemMeta) → IsUnsynced s' c → k a s' ≡ fault)
      → and_then r k ≡ fault
  fault_after c r k (inl e) h = ap (λ r. and_then r k) e
  fault_after c r k (inr (a, s', e, u)) h = ap (λ r. and_then r k) e ∙ h a s' u

module _ (c : Ptr) (s : LocalMemMeta) (u : IsUnsynced s c) where
  read_dentry-Kept : (p : Ptr) → Kept c (on_heap (read_dentry p) s)
  unfolding read_dentry
  read_dentry-Kept p = elim (Option-cases (s.heap.dentries p)) [
    | inl e ↦ inl (ground arith)
    | inr (d, e) ↦ inr (d, s, ground arith, u)
  ]

  is_dir-Kept : (p : Ptr) → Kept c (on_heap (Dentry.is_dir p) s)
  unfolding Dentry.is_dir read_dentry read_inode
  is_dir-Kept p = elim (Option-cases (s.heap.dentries p)) [
    | inl e ↦ inl (ground arith)
    | inr (d, e) ↦ elim (Option-cases (s.heap.inodes d.inode)) [
      | inl e' ↦ inl (ground arith)
      | inr (i, e') ↦ inr (not (bit_and i.mode s_ifdir == 0), s, ground arith, u)
    ]
  ]

  child_count-Kept : (p : Ptr) → Kept c (on_heap (Dentry.child_count p) s)
  unfolding Dentry.child_count read_dentry
  child_count-Kept p = elim (Option-cases (s.heap.dentries p)) [
    | inl e ↦ inl (ground arith)
    | inr (d, e) ↦ inr (length d.children, s, ground arith, u)
  ]

  write_dentry-Kept :
      (p : Ptr) (f : Dentry → Dentry)
      → ((d : Dentry) → d.synced ≡ false → (f d).synced ≡ false)
      → Kept c (on_heap (write_dentry p f) s)
  unfolding write_dentry read_dentry
  write_dentry-Kept p f keeps = elim (Option-cases (s.heap.dentries p)) [
    | inl e ↦ inl (ground arith)
    | inr (d, e) ↦ inr (
      tt,
      record s { heap = record s.heap { dentries = at s.heap.dentries p (some (f d)) } },
      ground arith,
      elim (ℕ_discrete p c) [
        | yes same ↦ record {
          dentry = f d;
          holds = ground arith;
          unsynced = keeps d (ground (arith, u.holds, u.unsynced));
        }
        | no differ ↦ record {
          dentry = u.dentry;
          holds = ground (arith, u.holds);
          unsynced = u.unsynced;
        }
      ],
    )
  ]

  complete_if-Kept :
      (p : Ptr) (b : Bool)
      → Kept c ((if b then on_heap (write_dentry p Dentry.complete) else pure tt) s)
  unfolding Dentry.complete
  complete_if-Kept p true = write_dentry-Kept p Dentry.complete (λ d e. e)
  complete_if-Kept p false = inr (tt, s, refl, u)

module _ (clock : ℕ → Timespec) where
  inc_ttl-Kept :
      (c : Ptr) (s : LocalMemMeta) (p : Ptr) (duration : ℕ)
      → IsUnsynced s c
      → Kept c (on_heap (Dentry.inc_ttl clock p duration) s)
  unfolding Dentry.inc_ttl Dentry.set_ttl now
  inc_ttl-Kept c s p duration u =
      let s' : LocalMemMeta = record s {
        heap = record s.heap { clock_reads = suc s.heap.clock_reads };
      } in
      let t = clock s.heap.clock_reads in
      write_dentry-Kept c s' (record { dentry = u.dentry; holds = u.holds; unsynced = u.unsynced })
        p (Dentry.set_ttl (record t { tv_sec = t.tv_sec + duration })) (λ d e. e)

  -- The part of a round after the child was found to be synced.
  synced_child-fault :
      (c p : Ptr) (q : List Ptr) (k : List Ptr → Cmd LocalMemMeta (List Ptr))
      → ((q : List Ptr) (s : LocalMemMeta) → IsUnsynced s c → k q s ≡ fault)
      → (s : LocalMemMeta) → IsUnsynced s c
      → keep_child clock p q k s ≡ fault
  unfolding keep_child
  synced_child-fault c p q k rest s u =
      fault_after c _ _ (write_dentry-Kept c s u p (λ d. record d { synced = false }) (λ d e. refl))
        (λ _ t u. fault_after c _ _ (is_dir-Kept c t u p) (λ dir s u.
          fault_after c _ _ (inc_ttl-Kept c s p t.opt.dcache_timeout u) (λ _ s u.
            fault_after c _ _ (child_count-Kept c s u p) (λ count s u.
              fault_after c _ _ (complete_if-Kept c s u p (dir && not (count == 0)))
                (λ _ s u. rest (if dir then q ++ p ∷ [] else q) s u)))))

  -- Whatever stands before an unsynced child, the loop does not get past it.
  clear_loop-fault :
      (d c : Ptr) (name : Text) (before after : List (Text × Ptr)) (q : List Ptr) (s : LocalMemMeta)
      → IsUnsynced s c
      → clear_loop clock d (before ++ (name, c) ∷ after) q s ≡ fault
  unfolding clear_loop Dentry.remove_child read_dentry read_inode write_dentry free_dentry
      free_inode
  clear_loop-fault d c name [] after q s u = ground (arith, u.holds, u.unsynced)
  clear_loop-fault d c name ((n, p) ∷ before) after q s u =
      fault_after c _ _ (read_dentry-Kept c s u p) (λ e s u. elim (Bool-cases e.synced) [
        | inl synced ↦ ground (
          arith,
          synced_child-fault c p q (clear_loop clock d (before ++ (name, c) ∷ after))
              (λ q s u. clear_loop-fault d c name before after q s u) s u,
        )
        | inr unsynced ↦ ground arith
      ])

  -- When a directory has an entry that the listing did not mark, dropping the entry invalidates the
  -- iterator of the loop, and the loop goes on with it.
  pub clear_unsync_dentry_fault :
      (s : LocalMemMeta) (parent c : Ptr) (d : Dentry) (name : Text)
      (before after : List (Text × Ptr))
      → s.heap.dentries parent ≡ some d
      → d.children ≡ before ++ (name, c) ∷ after
      → parent ≢ c
      → IsUnsynced s c
      → clear_unsync_dentry clock parent s ≡ fault
  unfolding clear_unsync_dentry clear_queue clear_one Dentry.inc_ttl Dentry.child_count
      Dentry.complete Dentry.set_ttl now read_dentry write_dentry
  clear_unsync_dentry_fault s parent c d name before after at_parent children differ u =
      let t = clock s.heap.clock_reads in
      let d1 = record d { synced = true } in
      let d2 = Dentry.set_ttl (record t { tv_sec = t.tv_sec + s.opt.dcache_timeout }) d1 in
      let s' : LocalMemMeta = record s {
        heap = record s.heap {
          dentries =
              at (at (at s.heap.dentries parent (some d1)) parent (some d2)) parent
                (some (Dentry.complete d2));
          clock_reads = suc s.heap.clock_reads;
        };
      } in
      let u' : IsUnsynced s' c = record {
        dentry = u.dentry;
        holds = ground (arith, u.holds);
        unsynced = u.unsynced;
      } in
      let loop : clear_loop clock parent d.children [] s' ≡ fault =
        ap (λ cs. clear_loop clock parent cs [] s') children
        ∙ clear_loop-fault parent c name before after [] s' u' in
      let some_child : length d.children ≢ 0 = λ e.
        absurd (omega (arith, e, ap length children, length-append before ((name, c) ∷ after))) in
      ground (arith, loop, some_child)
