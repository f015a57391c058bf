-- ===== src/SpireEntry/ByObject.antt =====
-- internal/spireentry/byobject.go: the order of the objects that declare entries. A time is what UnixNano
-- gives, an int64, as its two's complement; the difference of two of them wraps around.
use spire_eks_workload_regis.Prelude.{
  ℕ, zero, suc, ◌+◌, ◌-◌, ◌%◌, ◌<◌, ◌≡◌, refl, Bool, false, not, Option, none, some, if◌then◌else◌,
  ltb, arith,
}
use spire_eks_workload_regis.Prelude.Int.{ℤ, pos, negsuc}
use spire_eks_workload_regis.Text.{Text}
use spire_eks_workload_regis.Text.Order.{less, less_total, less_trans}
use spire_eks_workload_regis.Api.{WorkloadIdentityStats}

-- What objectCmp reads of a byObject.
pub record ByObject : Type 0 where
  pub uid : Text
  pub creation_timestamp : ℕ
  pub deletion_timestamp : Option ℕ

-- IncrementEntrySuccess
unfoldable pub increment_entry_success : WorkloadIdentityStats → WorkloadIdentityStats
increment_entry_success s = record s { entries_registered = suc s.entries_registered }

-- IncrementEntryFailures
unfoldable pub increment_entry_failures : WorkloadIdentityStats → WorkloadIdentityStats
increment_entry_failures s = record s { entry_failures = suc s.entry_failures }

-- a - b, of int64
abbrev pub difference : ℕ → ℕ → ℕ
difference a b = (a + (18446744073709551616 - b)) % 18446744073709551616

-- d < 0, and d > 0
abbrev pub is_negative : ℕ → Bool
is_negative d = not (ltb d 9223372036854775808)

abbrev pub is_positive : ℕ → Bool
is_positive d = if ltb 0 d then ltb d 9223372036854775808 else false

-- switch { case d < 0: return below; case d > 0: return above }, and what follows
abbrev pub by_difference : ℕ → ℤ → ℤ → ℤ → ℤ
by_difference d below above rest =
    if is_negative d then below else if is_positive d then above else rest

abbrev pub by_uid : Text → Text → ℤ
by_uid a b = if less a b then negsuc 0 else if less b a then pos 1 else pos 0

-- The switch on the deletion timestamps.
abbrev pub by_deletion : Option ℕ → Option ℕ → ℤ → ℤ
by_deletion none none rest = rest
by_deletion (some a) none rest = pos 1
by_deletion none (some b) rest = negsuc 0
by_deletion (some a) (some b) rest = by_difference (difference a b) (pos 1) (negsuc 0) rest

-- objectCmp
unfoldable pub object_cmp : ByObject → ByObject → ℤ
object_cmp a b =
    by_difference (difference a.creation_timestamp b.creation_timestamp) (negsuc 0) (pos 1)
      (by_deletion a.deletion_timestamp b.deletion_timestamp (by_uid a.uid b.uid))

-- From 1970 on, where no difference overflows.
abbrev InRange : Option ℕ → Type 0
InRange none = Unit
InRange (some d) = d < 9223372036854775808

pub record IsRecent (a : ByObject) : Type 0 where
  pub creation : a.creation_timestamp < 9223372036854775808
  pub deletion : InRange a.deletion_timestamp

abbrev opposite : ℤ → ℤ
opposite (pos zero) = pos 0
opposite (pos (suc n)) = negsuc n
opposite (negsuc n) = pos (suc n)

by_difference_lem :
    (a b : ℕ) (x y z : ℤ)
    → a < 9223372036854775808
    → b < 9223372036854775808
    → by_difference (difference a b) x y z ≡ (if ltb a b then x else if ltb b a then y else z)
by_difference_lem a b x y z h k = ground arith

by_uid-opposite : (a b : Text) → by_uid a b ≡ opposite (by_uid b a)
by_uid-opposite a b = ground (arith, less_total a b)

by_deletion-opposite :
    (a b : Option ℕ) (x y : ℤ)
    → InRange a
    → InRange b
    → x ≡ opposite y
    → by_deletion a b x ≡ opposite (by_deletion b a y)
by_deletion-opposite none none x y h k e = e
by_deletion-opposite (some a) none x y h k e = refl
by_deletion-opposite none (some b) x y h k e = refl
by_deletion-opposite (some a) (some b) x y h k e =
    rw
      (
        by_difference_lem a b (pos 1) (negsuc 0) x h k,
        by_difference_lem b a (pos 1) (negsuc 0) y k h,
      )
      (ground (arith, e))

-- Of objects whose times lie between 1970 and 2262, objectCmp of a and b is the opposite of that of b and
-- a: 1 against -1, and 0 against 0.
pub object_cmp-opposite :
    (a b : ByObject) → IsRecent a → IsRecent b → object_cmp a b ≡ opposite (object_cmp b a)
unfolding object_cmp
object_cmp-opposite a b h k =
    let later =
      by_deletion-opposite a.deletion_timestamp b.deletion_timestamp (by_uid a.uid b.uid)
        (by_uid b.uid a.uid) h.deletion k.deletion (by_uid-opposite a.uid b.uid) in
    rw
      (
        by_difference_lem a.creation_timestamp b.creation_timestamp (negsuc 0) (pos 1) _ h.creation
            k.creation,
        by_difference_lem b.creation_timestamp a.creation_timestamp (negsuc 0) (pos 1) _ k.creation
            h.creation,
      )
      (ground (arith, later))

by_uid_trans :
    (a b c : Text) → by_uid a b ≡ negsuc 0 → by_uid b c ≡ negsuc 0 → by_uid a c ≡ negsuc 0
by_uid_trans a b c h k =
    ground (arith, less_total a b, less_total b c, less_trans c a b, less_trans b c a)

by_deletion_trans :
    (a b c : Option ℕ) (x y z : ℤ)
    → InRange a
    → InRange b
    → InRange c
    → (x ≡ negsuc 0 → y ≡ negsuc 0 → z ≡ negsuc 0)
    → by_deletion a b x ≡ negsuc 0
    → by_deletion b c y ≡ negsuc 0
    → by_deletion a c z ≡ negsuc 0
by_deletion_trans none none none x y z h k l t p q = t p q
by_deletion_trans none none (some c) x y z h k l t p q = refl
by_deletion_trans none (some b) none x y z h k l t p q = cc q
by_deletion_trans none (some b) (some c) x y z h k l t p q = refl
by_deletion_trans (some a) none c x y z h k l t p q = cc p
by_deletion_trans (some a) (some b) none x y z h k l t p q = cc q
by_deletion_trans (some a) (some b) (some c) x y z h k l t p q =
    let p' = rw (by_difference_lem a b (pos 1) (negsuc 0) x h k) at p in
    let q' = rw (by_difference_lem b c (pos 1) (negsuc 0) y k l) at q in
    rw (by_difference_lem a c (pos 1) (negsuc 0) z h l) (ground (arith, t, p', q'))

-- Of objects whose times lie between 1970 and 2262, objectCmp is transitive: what stands before what
-- stands before an object stands before that object.
pub object_cmp_trans :
    (a b c : ByObject)
    → IsRecent a
    → IsRecent b
    → IsRecent c
    → object_cmp a b ≡ negsuc 0
    → object_cmp b c ≡ negsuc 0
    → object_cmp a c ≡ negsuc 0
unfolding object_cmp
object_cmp_trans a b c h k l p q =
    let later =
      by_deletion_trans a.deletion_timestamp b.deletion_timestamp c.deletion_timestamp
        (by_uid a.uid b.uid) (by_uid b.uid c.uid) (by_uid a.uid c.uid) h.deletion k.deletion
        l.deletion (by_uid_trans a.uid b.uid c.uid) in
    let p' =
      rw
        (by_difference_lem a.creation_timestamp b.creation_timestamp (negsuc 0) (pos 1) _ h.creation
          k.creation)
        at p in
    let q' =
      rw
        (by_difference_lem b.creation_timestamp c.creation_timestamp (negsuc 0) (pos 1) _ k.creation
          l.creation)
        at q in
    rw
      (by_difference_lem a.creation_timestamp c.creation_timestamp (negsuc 0) (pos 1) _ h.creation
        l.creation)
      (ground (arith, later, p', q'))
