-- ===== src/Node/Sessions/Lines.antt =====
-- pkg/driver/initiator.go: a line that `iscsiadm -m session` prints,
-- `tcp: [1] 10.0.0.7:3260,1 iqn.2000-01.com.synology:nas.a (non-flash)`.
use reference_guides.Base.{
  ℕ, GoString, codes, eqb, ◌++◌, [], ◌∷◌, List, map, All, split, is_space, without, parse_int32,
  Bool, true, false, ◌||◌, ok, ◌≡◌, refl, ap, Free, split_when-Free, split_when_at, spaced,
  Free-map, Free-append, IsWord, fields-spaced, empty_append,
}
use reference_guides.Node.Sessions.{
  IscsiSession, parse_entries, parse_entry, session_of, session_named,
}

-- A session as it is printed: the tag is that of the portal group, the vendor is the part of the IQN before
-- its colon.
pub record Printed : Type 0 where
  pub protocol : GoString
  pub number : GoString
  pub portal : GoString
  pub tag : GoString
  pub vendor : GoString
  pub name : GoString

abbrev pub iqn_of : Printed → GoString
iqn_of p = p.vendor ++ (b':' ∷ p.name)

-- The words of a line.
abbrev pub words : Printed → List GoString
words p =
    (p.protocol ++ codes ":")
    ∷ (codes "[" ++ (p.number ++ codes "]"))
    ∷ (p.portal ++ (b',' ∷ p.tag))
    ∷ iqn_of p
    ∷ codes "(non-flash)"
    ∷ []

abbrev pub line : Printed → GoString
line p = spaced (words p)

-- Every line ends in a newline.
abbrev pub print : List Printed → GoString
print [] = []
print (p ∷ ps) = line p ++ (b'\n' ∷ print ps)

-- The session that is meant.
abbrev pub session : Printed → IscsiSession
session p = record {
  protocol = p.protocol;
  id = parse_int32 p.number;
  portal = p.portal;
  iqn = iqn_of p;
  name = p.name;
}

-- A byte that is no space and neither of the two.
abbrev pub is_other : ℕ → ℕ → ℕ → Bool
is_other a b c = is_space c || (eqb c a || eqb c b)

-- None of the fields has a space or the byte that ends it.
pub record IsPlain (p : Printed) : Type 0 where
  pub protocol_plain : Free (is_other b':' b':') p.protocol
  pub number_plain : Free (is_other b'[' b']') p.number
  pub portal_plain : Free (is_other b',' b',') p.portal
  pub tag_plain : Free is_space p.tag
  pub vendor_plain : Free (is_other b':' b':') p.vendor
  pub name_plain : Free (is_other b':' b':') p.name

or_left : (a b : Bool) → (a || b) ≡ false → a ≡ false
or_left true b e = e
or_left false b e = refl

or_right : (a b : Bool) → (a || b) ≡ false → b ≡ false
or_right true b e = cc
or_right false b e = e

unspaced : (a b : ℕ) (w : GoString) → Free (is_other a b) w → Free is_space w
unspaced a b w = Free-map (is_other a b) is_space w λ c. or_left (is_space c) (eqb c a || eqb c b)

unmarked : (a b : ℕ) (w : GoString) → Free (is_other a b) w → Free (λ c. eqb c a || eqb c b) w
unmarked a b w =
    Free-map (is_other a b) (λ c. eqb c a || eqb c b) w
      λ c. or_right (is_space c) (eqb c a || eqb c b)

unended : (a : ℕ) (w : GoString) → Free (is_other a a) w → Free (λ c. eqb c a) w
unended a w =
    Free-map (is_other a a) (λ c. eqb c a) w
      λ c h. or_left (eqb c a) (eqb c a) (or_right (is_space c) (eqb c a || eqb c a) h)

without_last :
    (w : GoString) → Free (λ c. eqb c b'[' || eqb c b']') w → without b'[' b']' (w ++ codes "]") ≡ w
without_last [] h = refl
without_last (c ∷ w) (here, later) = rw here (ap (λ x. c ∷ x) (without_last w later))

pub words-IsWord : (p : Printed) → IsPlain p → All IsWord (words p)
words-IsWord p h = (
  (
    empty_append p.protocol (codes ":") refl,
    Free-append is_space p.protocol (codes ":") (unspaced b':' b':' p.protocol h.protocol_plain)
        (refl, tt),
  ),
  (
    (
      refl,
      (
        refl,
        Free-append is_space p.number (codes "]") (unspaced b'[' b']' p.number h.number_plain)
            (refl, tt),
      ),
    ),
    (
      (
        empty_append p.portal (b',' ∷ p.tag) refl,
        Free-append is_space p.portal (b',' ∷ p.tag) (unspaced b',' b',' p.portal h.portal_plain)
            (refl, h.tag_plain),
      ),
      (
        (
          empty_append p.vendor (b':' ∷ p.name) refl,
          Free-append is_space p.vendor (b':' ∷ p.name) (unspaced b':' b':' p.vendor h.vendor_plain)
              (refl, unspaced b':' b':' p.name h.name_plain),
        ),
        (
          (
            refl,
            (
              refl,
              (refl, (refl, (refl, (refl, (refl, (refl, (refl, (refl, (refl, (refl, tt)))))))))),
            ),
          ),
          tt,
        ),
      ),
    ),
  ),
)

split_end : (a : ℕ) (w : GoString) → Free (is_other a a) w → split a w ≡ w ∷ []
split_end a w h = split_when-Free (λ c. eqb c a) w (unended a w h)

split_mark :
    (a : ℕ) (w s : GoString)
    → eqb a a ≡ true
    → Free (is_other a a) w
    → split a (w ++ (a ∷ s)) ≡ w ∷ split a s
split_mark a w s same h = split_when_at (λ c. eqb c a) w s a (unended a w h) same

parse_words :
    (p : Printed) (rest : List IscsiSession)
    → IsPlain p
    → parse_entry (words p) (ok rest) ≡ ok (session p ∷ rest)
unfolding parse_entry session_of session_named
parse_words p rest h =
    rw
      (
        split_mark b':' p.vendor p.name refl h.vendor_plain,
        split_end b':' p.name h.name_plain,
        split_mark b':' p.protocol [] refl h.protocol_plain,
        split_mark b',' p.portal p.tag refl h.portal_plain,
        without_last p.number (unmarked b'[' b']' p.number h.number_plain),
      )
      refl

pub parse_lines :
    (ps : List Printed) → All IsPlain ps → parse_entries (map line ps) ≡ ok (map session ps)
unfolding parse_entries
parse_lines [] h = refl
parse_lines (p ∷ ps) (h, hs) =
    rw
      (
        parse_lines ps hs,
        fields-spaced (words p) (words-IsWord p h),
        parse_words p (map session ps) h,
      )
      refl
