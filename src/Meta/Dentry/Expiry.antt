-- ===== src/Meta/Dentry/Expiry.antt =====
-- src/types/dentry.h: inc_ttl and is_expired against time as a number of nanoseconds, and the
-- flags.
use catfs.Common.{ℕ, suc, ◌+◌, ◌*◌, ◌<◌, ◌≡◌, some, arith, ok, ltb, ◌>>◌}
use catfs.Stor.{Timespec}
use catfs.Meta.Heap.{Ptr, Heap, Dentry, at, now, read_dentry, write_dentry}
use catfs.Meta.Dentry.{expired_at, is_expired, inc_ttl, set_ttl}

abbrev pub nanos : Timespec → ℕ
nanos t = t.tv_sec * 1_000_000_000 + t.tv_nsec

abbrev pub IsNormal : Timespec → Type 0
IsNormal t = t.tv_nsec < 1_000_000_000

expired_at-nanos :
    (t ttl : Timespec) → IsNormal t → IsNormal ttl → expired_at t ttl ≡ ltb (nanos ttl) (nanos t)
unfolding expired_at
expired_at-nanos t ttl n m = ground arith

-- A dentry whose time was set `duration` seconds ahead has expired at the next reading of the clock
-- exactly when that reading is later than the first by more than `duration` seconds.
pub is_expired-inc_ttl :
    (clock : ℕ → Timespec) (h : Heap) (this : Ptr) (d : Dentry) (duration : ℕ)
    → h.dentries this ≡ some d
    → IsNormal (clock h.clock_reads)
    → IsNormal (clock (suc h.clock_reads))
    → (h' : Heap) × ((inc_ttl clock this duration >> is_expired clock this) h
        ≡ ok
            (ltb
              (nanos (clock h.clock_reads) + duration * 1_000_000_000)
              (nanos (clock (suc h.clock_reads))))
            h')
unfolding is_expired inc_ttl now read_dentry write_dentry
is_expired-inc_ttl clock h this d duration at_this n m =
    let t = clock h.clock_reads in
    let ttl : Timespec = record t { tv_sec = t.tv_sec + duration } in
    (
      record h {
        dentries = at h.dentries this (some (set_ttl ttl d));
        clock_reads = suc (suc h.clock_reads);
      },
      ground (arith, expired_at-nanos (clock (suc h.clock_reads)) ttl m n),
    )
