-- ===== src/Meta/Local/Modes.antt =====
-- src/meta/meta_local_mem.cpp: the mode that obj2inode gives, by its bits.
use Prim.Native.Nat.{bit_and, bit_or}
use catfs.Common.{
  ℕ, ◌-◌, ◌^◌, ◌≡◌, refl, Bool, true, false, ◌&&◌, none, some, Option-cases, inl, inr, arith,
  bit_and_le, every_below, every_below-at, ◌==◌, if◌then◌else◌,
}
use catfs.Stor.{ObjInfo}
use catfs.Meta.Dentry.{s_ifdir}
use catfs.Meta.Local.{s_ifreg, with_permissions, obj_mode}

-- The bits that tell files from directories: S_IFMT.
abbrev pub s_ifmt : ℕ
s_ifmt = 0o170000

abbrev pub file_type : Bool → ℕ
file_type is_dir = if is_dir then s_ifdir else s_ifreg

-- The permissions of the object, and what stands in for them where it has none.
abbrev pub permissions : ObjInfo → Bool → ℕ
permissions obj is_dir = elim obj.mode [
  | none ↦ if is_dir then 0o766 else 0o644
  | some perm ↦ bit_and perm 0o777
]

abbrev fits : (mode type : ℕ) → ℕ → Bool
fits mode type x =
    let m = bit_or (bit_and mode (2 ^ 32 - 1 - 0o777)) x in
    (bit_and m s_ifmt == type) && (bit_and m 0o777 == x)

dir_table : every_below 512 (fits (bit_or s_ifdir 0o766) s_ifdir) ≡ true
unfolding every_below
dir_table = refl

file_table : every_below 512 (fits (bit_or s_ifreg 0o644) s_ifreg) ≡ true
unfolding every_below
file_table = refl

with_permissions_bits :
    (mode type perm : ℕ)
    → every_below 512 (fits mode type) ≡ true
    → (bit_and (with_permissions mode perm) s_ifmt ≡ type)
      × (bit_and (with_permissions mode perm) 0o777 ≡ bit_and perm 0o777)
unfolding with_permissions
with_permissions_bits mode type perm table =
    let x = bit_and perm 0o777 in
    ground
      (arith, every_below-at 512 (fits mode type) x table (omega (arith, bit_and_le perm 0o777)))

-- The mode of an inode that is made from an object has the type that was asked for, and the nine
-- permission bits of the object, or 0766 for a directory and 0644 for a file where it has none.
pub obj_mode_bits :
    (obj : ObjInfo) (is_dir : Bool)
    → (bit_and (obj_mode obj is_dir) s_ifmt ≡ file_type is_dir)
      × (bit_and (obj_mode obj is_dir) 0o777 ≡ permissions obj is_dir)
unfolding obj_mode
obj_mode_bits obj true = elim (Option-cases obj.mode) [
  | inl e ↦ rw e (refl, refl)
  | inr (perm, e) ↦ rw e (with_permissions_bits (bit_or s_ifdir 0o766) s_ifdir perm dir_table)
]
obj_mode_bits obj false = elim (Option-cases obj.mode) [
  | inl e ↦ rw e (refl, refl)
  | inr (perm, e) ↦ rw e (with_permissions_bits (bit_or s_ifreg 0o644) s_ifreg perm file_table)
]
