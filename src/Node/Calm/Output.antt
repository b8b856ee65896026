-- ===== src/Node/Calm/Output.antt =====
-- pkg/driver/initiator.go and multipath.go: the output of iscsiadm and lsblk that is read without a panic.
use reference_guides.Base.{
  ℕ, ◌+◌, ◌≤◌, GoString, length, split, fields, trim, is_space, is_empty, eqb, is_panic, Bool, true,
  false, All, Option, none, some, List, [], ◌∷◌, map, Result, ok, err, errorf, ◌≡◌, refl, arith,
  if◌then◌else◌, ◌⊎◌, inl, inr, ◌↔◌, Bool-cases, leb,
}
use reference_guides.Node.Sessions.{
  IscsiSession, session_named, session_of, onto_sessions, parse_entry, parse_entries,
  parse_sessions,
}
use reference_guides.Node.Devices.{
  Device, Row, row_of, onto_rows, rows_of, place_of, adopt, build_tree, rooted, tree_of,
  parse_devices,
}

-- A value, or an error that is no run-time panic.
abbrev pub NoPanic : {A : Type 0} → Result A → Type 0
NoPanic (ok a) = Unit
NoPanic (err e) = is_panic e ≡ false

-- The fourth word of an entry, where there is one, has a colon: it is an IQN with a name behind it.
abbrev pub HasNamedIqn : List GoString → Type 0
HasNamedIqn (protocol ∷ id ∷ portal ∷ iqn ∷ more) = 2 ≤ length (split b':' iqn)
HasNamedIqn _ = Unit

abbrev pub TidySessions : GoString → Type 0
TidySessions out = All (λ entry. HasNamedIqn (fields entry)) (split b'\n' (trim is_space out))

-- Every line has the seven columns that lsblk is asked for.
abbrev pub TidyDevices : GoString → Type 0
TidyDevices out =
    All (λ line. 7 ≤ length (split b' ' line)) (split b'\n' (trim (λ c. eqb c b'\n') out))

at_least : (m n : ℕ) → (m ≤ n) ⊎ (m ≤ n → ⊥)
at_least m n = elim (Bool-cases (leb m n)) [
  | inl t ↦ inl (ground (arith, t))
  | inr f ↦ inr (λ h. ground (arith, f, h))
]

named_or : (words : List GoString) → HasNamedIqn words ⊎ (HasNamedIqn words → ⊥)
named_or [] = inl tt
named_or (a ∷ []) = inl tt
named_or (a ∷ b ∷ []) = inl tt
named_or (a ∷ b ∷ c ∷ []) = inl tt
named_or (a ∷ b ∷ c ∷ iqn ∷ more) = at_least 2 (length (split b':' iqn))

All-or :
    {A : Type 0} (P : A → Type 0)
    → ((a : A) → P a ⊎ (P a → ⊥))
    → (xs : List A) → All P xs ⊎ (All P xs → ⊥)
All-or P d [] = inl tt
All-or P d (x ∷ xs) = elim (d x) [
  | inr no_head ↦ inr (λ h. no_head h.0)
  | inl head ↦ elim (All-or P d xs) [
    | inr no_tail ↦ inr (λ h. no_tail h.1)
    | inl tail ↦ inl (head, tail)
  ]
]

pub TidySessions-or : (out : GoString) → TidySessions out ⊎ (TidySessions out → ⊥)
TidySessions-or out =
    All-or (λ entry. HasNamedIqn (fields entry)) (λ entry. named_or (fields entry)) _

pub TidyDevices-or : (out : GoString) → TidyDevices out ⊎ (TidyDevices out → ⊥)
TidyDevices-or out =
    All-or (λ line. 7 ≤ length (split b' ' line)) (λ line. at_least 7 (length (split b' ' line))) _

session_named-NoPanic :
    (protocol id portal iqn : GoString) (pieces : List GoString)
    → 2 ≤ length pieces
    → NoPanic (session_named protocol id portal iqn pieces)
unfolding session_named
session_named-NoPanic protocol id portal iqn [] h = absurd (omega arith)
session_named-NoPanic protocol id portal iqn (w ∷ []) h = absurd (omega arith)
session_named-NoPanic protocol id portal iqn (w ∷ name ∷ more) h = tt

onto_sessions-NoPanic :
    (r : Result IscsiSession) (rest : Result (List IscsiSession))
    → NoPanic r
    → NoPanic rest
    → NoPanic (onto_sessions r rest)
onto_sessions-NoPanic (err e) rest h k = h
onto_sessions-NoPanic (ok s) (err e) h k = k
onto_sessions-NoPanic (ok s) (ok ss) h k = tt

parse_entry-NoPanic :
    (words : List GoString) (rest : Result (List IscsiSession))
    → HasNamedIqn words
    → NoPanic rest
    → NoPanic (parse_entry words rest)
unfolding parse_entry session_of
parse_entry-NoPanic [] rest h k = k
parse_entry-NoPanic (a ∷ []) rest h k = k
parse_entry-NoPanic (a ∷ b ∷ []) rest h k = k
parse_entry-NoPanic (a ∷ b ∷ c ∷ []) rest h k = k
parse_entry-NoPanic (a ∷ b ∷ c ∷ iqn ∷ more) rest h k =
    onto_sessions-NoPanic (session_named a b c iqn (split b':' iqn)) rest
      (session_named-NoPanic a b c iqn (split b':' iqn) h) k

parse_entries-NoPanic :
    (entries : List GoString)
    → All (λ entry. HasNamedIqn (fields entry)) entries
    → NoPanic (parse_entries entries)
unfolding parse_entries
parse_entries-NoPanic [] h = tt
parse_entries-NoPanic (entry ∷ entries) (h, hs) =
    parse_entry-NoPanic (fields entry) (parse_entries entries) h (parse_entries-NoPanic entries hs)

pub parse_sessions-NoPanic : (out : GoString) → TidySessions out → NoPanic (parse_sessions out)
unfolding parse_sessions
parse_sessions-NoPanic out h = parse_entries-NoPanic (split b'\n' (trim is_space out)) h

named_both :
    (protocol id portal iqn : GoString) (pieces : List GoString) (rest : Result (List IscsiSession))
    → NoPanic (onto_sessions (session_named protocol id portal iqn pieces) rest)
    → (2 ≤ length pieces) × NoPanic rest
unfolding session_named
named_both protocol id portal iqn [] rest h = cc
named_both protocol id portal iqn (w ∷ []) rest h = cc
named_both protocol id portal iqn (w ∷ name ∷ more) (ok ss) h = (omega arith, tt)
named_both protocol id portal iqn (w ∷ name ∷ more) (err e) h = (omega arith, h)

entry_both :
    (words : List GoString) (rest : Result (List IscsiSession))
    → NoPanic (parse_entry words rest)
    → HasNamedIqn words × NoPanic rest
unfolding parse_entry session_of
entry_both [] rest h = (tt, h)
entry_both (a ∷ []) rest h = (tt, h)
entry_both (a ∷ b ∷ []) rest h = (tt, h)
entry_both (a ∷ b ∷ c ∷ []) rest h = (tt, h)
entry_both (a ∷ b ∷ c ∷ iqn ∷ more) rest h = named_both a b c iqn (split b':' iqn) rest h

entries_tidy :
    (entries : List GoString)
    → NoPanic (parse_entries entries)
    → All (λ entry. HasNamedIqn (fields entry)) entries
unfolding parse_entries
entries_tidy [] h = tt
entries_tidy (entry ∷ entries) h =
    let (here, later) = entry_both (fields entry) (parse_entries entries) h in
    (here, entries_tidy entries later)

-- parseSessions ends without a run-time panic exactly where every line that it is given with four or more
-- words has a colon in the fourth, the IQN.
pub parse_sessions-NoPanic_iff : (out : GoString) → NoPanic (parse_sessions out) ↔ TidySessions out
unfolding parse_sessions
parse_sessions-NoPanic_iff out =
    (entries_tidy (split b'\n' (trim is_space out)), parse_sessions-NoPanic out)

row_of-NoPanic : (columns : List GoString) → 7 ≤ length columns → NoPanic (row_of columns)
unfolding row_of
row_of-NoPanic [] h = absurd (omega arith)
row_of-NoPanic (a ∷ []) h = absurd (omega arith)
row_of-NoPanic (a ∷ b ∷ []) h = absurd (omega arith)
row_of-NoPanic (a ∷ b ∷ c ∷ []) h = absurd (omega arith)
row_of-NoPanic (a ∷ b ∷ c ∷ d ∷ []) h = absurd (omega arith)
row_of-NoPanic (a ∷ b ∷ c ∷ d ∷ e ∷ []) h = absurd (omega arith)
row_of-NoPanic (a ∷ b ∷ c ∷ d ∷ e ∷ f ∷ []) h = absurd (omega arith)
row_of-NoPanic (a ∷ b ∷ c ∷ d ∷ e ∷ f ∷ g ∷ more) h = tt

onto_rows-NoPanic :
    (r : Result Row) (rest : Result (List Row))
    → NoPanic r
    → NoPanic rest
    → NoPanic (onto_rows r rest)
onto_rows-NoPanic (err e) rest h k = h
onto_rows-NoPanic (ok s) (err e) h k = k
onto_rows-NoPanic (ok s) (ok ss) h k = tt

rows_of-NoPanic :
    (lines : List GoString)
    → All (λ line. 7 ≤ length (split b' ' line)) lines
    → NoPanic (rows_of lines)
unfolding rows_of
rows_of-NoPanic [] h = tt
rows_of-NoPanic (line ∷ lines) (h, hs) =
    onto_rows-NoPanic (row_of (split b' ' line)) (rows_of lines)
      (row_of-NoPanic (split b' ' line) h) (rows_of-NoPanic lines hs)

build_tree-NoPanic :
    (rows : List Row) (i : ℕ) (rest : List Row) (devices : List Device)
    → NoPanic (build_tree rows i rest devices)
unfolding build_tree
build_tree-NoPanic rows i [] devices = tt
build_tree-NoPanic rows i (r ∷ rs) devices =
    go (is_empty r.pkname) (place_of r.pkname 0 rows) (build_tree-NoPanic rows (i + 1) rs)
  where
    go :
        (b : Bool) (o : Option ℕ)
        → ((ds : List Device) → NoPanic (build_tree rows (i + 1) rs ds))
        → NoPanic (
            if b
            then build_tree rows (i + 1) rs devices
            else elim o as (λ x. Result (List Device)) [
              | none ↦ err errorf
              | some parent ↦ build_tree rows (i + 1) rs (adopt parent i devices)
            ])
    go true o k = k devices
    go false none k = refl
    go false (some parent) k = k (adopt parent i devices)

rooted-NoPanic : (rows : List Row) (r : Result (List Device)) → NoPanic r → NoPanic (rooted rows r)
rooted-NoPanic rows (err e) h = h
rooted-NoPanic rows (ok devices) h = tt

tree_of-NoPanic : (r : Result (List Row)) → NoPanic r → NoPanic (tree_of r)
tree_of-NoPanic (err e) h = h
tree_of-NoPanic (ok rows) h =
    rooted-NoPanic rows (build_tree rows 0 rows (map (λ r. r.dev) rows))
      (build_tree-NoPanic rows 0 rows (map (λ r. r.dev) rows))

pub parse_devices-NoPanic : (out : GoString) → TidyDevices out → NoPanic (parse_devices out)
unfolding parse_devices
parse_devices-NoPanic out h =
    tree_of-NoPanic (rows_of (split b'\n' (trim (λ c. eqb c b'\n') out)))
      (rows_of-NoPanic (split b'\n' (trim (λ c. eqb c b'\n') out)) h)
