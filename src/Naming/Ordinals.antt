-- ===== src/Naming/Ordinals.antt =====
-- Pod names are read back as the ordinals they were made of.
use wellcake.Common.{
  Bytes, some, [], ◌∷◌, ◌++◌, ◌≡◌, ℤ, pos_part, neg_part, refl, itoa_ℤ, after_prefix, parse_int32,
  parse_int-itoa_ℤ, ◌<◌, ◌≤◌, append_assoc, ==_refl,
}
use wellcake.Naming.{ordinal_name, ordinal_from_pod_name}

pub after_prefix-append : (p s : Bytes) → after_prefix (p ++ s) p ≡ some s
unfolding after_prefix
after_prefix-append [] s = refl
after_prefix-append (c ∷ p) s = rw (==_refl c) (after_prefix-append p s)

-- The name of the pod at an ordinal that fits an int32 gives that ordinal back, for any base name.
pub ordinal_from_pod_name-ordinal_name :
    (sts : Bytes) (ord : ℤ)
    → pos_part ord < 2147483648
    → neg_part ord ≤ 2147483648
    → ordinal_from_pod_name (ordinal_name sts ord) sts ≡ some ord
unfolding ordinal_from_pod_name ordinal_name parse_int32
ordinal_from_pod_name-ordinal_name sts ord h k =
    rw
      (
        ← append_assoc sts (b'-' ∷ []) (itoa_ℤ ord),
        after_prefix-append (sts ++ (b'-' ∷ [])) (itoa_ℤ ord),
      )
      (parse_int-itoa_ℤ 2147483648 ord h k)
