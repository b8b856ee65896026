-- ===== src/Node/Sessions/Printed.antt =====
-- pkg/driver/initiator.go: what parseSessions reads in the output of `iscsiadm -m session`.
use reference_guides.Base.{
  ℕ, GoString, codes, eqb, ◌++◌, append_assoc, [], ◌∷◌, List, map, All, split, split_when, is_space,
  is_empty, trim_left, trim_right, true, false, ok, ◌≡◌, refl, sym, ◌∙◌, ap, Free, split_when-Free,
  split_when_at, spaced, Free-map, Free-append, IsWord, empty_append, cut, trim_right_there,
  spaced_there, trim_right_words, trim_left_word, arith,
}
use reference_guides.Node.Sessions.{parse_sessions, parse_entries, parse_entry}
use reference_guides.Node.Sessions.Lines.{
  Printed, words, line, print, session, IsPlain, words-IsWord, parse_lines, iqn_of,
}

-- The text without the last newline.
abbrev joined : Printed → List Printed → GoString
joined p [] = line p
joined p (q ∷ qs) = line p ++ (b'\n' ∷ joined q qs)

no_newline : (c : ℕ) → is_space c ≡ false → eqb c b'\n' ≡ false
no_newline c h = ground arith

words-Free : (ws : List GoString) → All IsWord ws → Free (λ c. eqb c b'\n') (spaced ws)
words-Free [] h = tt
words-Free (w ∷ []) ((there, plain), tt) = Free-map is_space (λ c. eqb c b'\n') w no_newline plain
words-Free (w ∷ v ∷ ws) ((there, plain), later) =
    Free-append (λ c. eqb c b'\n') w (b' ' ∷ spaced (v ∷ ws))
      (Free-map is_space (λ c. eqb c b'\n') w no_newline plain) (refl, words-Free (v ∷ ws) later)

split-joined :
    (p : Printed) (ps : List Printed)
    → All IsPlain (p ∷ ps)
    → split b'\n' (joined p ps) ≡ map line (p ∷ ps)
split-joined p [] (h, tt) =
    split_when-Free (λ c. eqb c b'\n') (line p) (words-Free (words p) (words-IsWord p h))
split-joined p (q ∷ qs) (h, hs) =
    split_when_at (λ c. eqb c b'\n') (line p) (joined q qs) b'\n'
      (words-Free (words p) (words-IsWord p h)) refl
    ∙ ap (λ x. line p ∷ x) (split-joined q qs hs)

joined_there : (p : Printed) (ps : List Printed) → is_empty (joined p ps) ≡ false
joined_there p [] =
    spaced_there (p.protocol ++ codes ":")
      ((codes "[" ++ (p.number ++ codes "]"))
        ∷ (p.portal ++ (b',' ∷ p.tag))
        ∷ iqn_of p
        ∷ codes "(non-flash)"
        ∷ [])
      (empty_append p.protocol (codes ":") refl)
joined_there p (q ∷ qs) = empty_append (line p) (b'\n' ∷ joined q qs) refl

trim_right-print :
    (p : Printed) (ps : List Printed)
    → All IsPlain (p ∷ ps)
    → trim_right is_space (print (p ∷ ps)) ≡ joined p ps
unfolding trim_right
trim_right-print p [] (h, tt) = trim_right_words (words p) (b'\n' ∷ []) (words-IsWord p h) refl
trim_right-print p (q ∷ qs) (h, hs) =
    let inner : trim_right is_space (b'\n' ∷ print (q ∷ qs)) ≡ b'\n' ∷ joined q qs =
      rw (trim_right-print q qs hs) (cut true b'\n' (joined q qs) (joined_there q qs)) in
    trim_right_there (line p) (b'\n' ∷ print (q ∷ qs)) (ap is_empty inner)
    ∙ ap (λ x. line p ++ x) inner

trim_left-joined :
    (p : Printed) (ps : List Printed) → IsPlain p → trim_left is_space (joined p ps) ≡ joined p ps
trim_left-joined p [] h = trim_left_word (p.protocol ++ codes ":") _ (words-IsWord p h).0
trim_left-joined p (q ∷ qs) h =
    ap (trim_left is_space) (append_assoc (p.protocol ++ codes ":") _ _)
    ∙ trim_left_word (p.protocol ++ codes ":") _ (words-IsWord p h).0
    ∙ sym (append_assoc (p.protocol ++ codes ":") _ _)

-- parseSessions reads back the sessions that iscsiadm prints, in their order, where no field has a space or
-- the byte that ends it in a line: of each the protocol, the number, the portal, the IQN and the name behind
-- the colon of the IQN.
pub parse_sessions-print :
    (ps : List Printed) → All IsPlain ps → parse_sessions (print ps) ≡ ok (map session ps)
unfolding parse_sessions parse_entries parse_entry split_when trim_left trim_right
parse_sessions-print [] h = refl
parse_sessions-print (p ∷ ps) (h, hs) =
    rw (trim_right-print p ps (h, hs), trim_left-joined p ps h, split-joined p ps (h, hs))
      (parse_lines (p ∷ ps) (h, hs))
