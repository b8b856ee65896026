-- ===== src/Driver/Endpoint.antt =====
-- pkg/driver/utils.go: ParseEndpoint.
use reference_guides.Base.{
  GoString, codes, to_lower, has_prefix, drop, length, is_empty, Option, none, some, [], ◌∷◌, ◌||◌,
  errorf, index_out_of_range, Result, ok, err, if◌then◌else◌,
}

-- What is before the first place of the separator, and what is behind it, as in strings.SplitN(s, sep, 2);
-- `none` where the separator is not there.
unfoldable pub cut_at : GoString → GoString → Option (GoString × GoString)
unfolding has_prefix
cut_at sep [] = none
cut_at sep (c ∷ s) =
    let rest = cut_at sep s in
    if has_prefix (c ∷ s) sep
    then some ([], drop (length sep) (c ∷ s))
    else elim rest [ none ↦ none | some parts ↦ some (c ∷ parts.0, parts.1) ]

-- The scheme and the address.
unfoldable pub parse_endpoint : GoString → Result (GoString × GoString)
unfolding cut_at has_prefix to_lower
parse_endpoint ep =
    if has_prefix (to_lower ep) (codes "unix://") || has_prefix (to_lower ep) (codes "tcp://")
    then elim (cut_at (codes "://") ep) [
      | none ↦ err index_out_of_range
      | some parts ↦ if is_empty parts.1 then err errorf else ok parts
    ]
    else err errorf
