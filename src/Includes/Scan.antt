-- ===== src/Includes/Scan.antt =====
-- A line with an include directive.
use dist_build_sys.Base.{
  ℕ, ◌≡◌, refl, List, [], ◌∷◌, ◌++◌, Bool, true, false, not, some, Bytes, codes, ◌==◌, All, all,
  map, ap, starts_with, arith,
}
use dist_build_sys.Includes.{
  IncludeType, include_type_angle, include_type_quote, IncludeDirective, behind_byte, before_byte,
  is_white, skip_white, behind_keyword, directive, delimited, scan_line, add_to_line, split_lines,
  collect, scan_lines, find_file_includes,
}

-- The byte does not occur.
abbrev lacks : ℕ → Bytes → Bool
lacks c s = all (λ x. not (x == c)) s

behind_byte-append : (c : ℕ) (s t : Bytes) → lacks c s ≡ true → behind_byte c (s ++ c ∷ t) ≡ some t
unfolding behind_byte
behind_byte-append c [] t h = ground arith
behind_byte-append c (x ∷ s) t h = ground (arith, behind_byte-append c s t)

before_byte-append : (c : ℕ) (s t : Bytes) → lacks c s ≡ true → before_byte c (s ++ c ∷ t) ≡ some s
unfolding before_byte
before_byte-append c [] t h = ground arith
before_byte-append c (x ∷ s) t h = ground (arith, before_byte-append c s t)

skip_white-append :
    (s t : Bytes) → all is_white s ≡ true → skip_white t ≡ t → skip_white (s ++ t) ≡ t
unfolding skip_white
skip_white-append [] t h e = e
skip_white-append (x ∷ s) t h e = ground (arith, skip_white-append s t)

-- The keyword is the shorter one if a blank or a delimiter follows.
keyword :
    (s t : Bytes) (c : ℕ)
    → all is_white s ≡ true
    → (c == 95) ≡ false
    → behind_keyword (codes "include" ++ (s ++ c ∷ t)) ≡ some (s ++ c ∷ t)
unfolding behind_keyword starts_with is_white
keyword [] t c h d = ground (arith, h, d)
keyword (x ∷ s) t c h d = ground (arith, h, d)

-- The delimiters of a name.
abbrev opening : IncludeType → ℕ
opening include_type_angle = 60
opening include_type_quote = 34

abbrev closing : IncludeType → ℕ
closing include_type_angle = 62
closing include_type_quote = 34

-- A line with a directive: what stands around and between its parts.
pub record Line : Type 0 where
  pub before : Bytes
  pub blanks : Bytes
  pub spaces : Bytes
  pub name : Bytes
  pub after : Bytes
  pub type : IncludeType

abbrev quoted : Line → Bytes
quoted l = opening l.type ∷ (l.name ++ closing l.type ∷ l.after)

abbrev text : Line → Bytes
text l = l.before ++ 35 ∷ (l.blanks ++ (codes "include" ++ (l.spaces ++ quoted l)))

-- No hash before the directive's own, blanks where blanks may be, no closing delimiter in the name.
pub record IsLine (l : Line) : Type 0 where
  pub first : lacks 35 l.before ≡ true
  pub blank : all is_white l.blanks ≡ true
  pub space : all is_white l.spaces ≡ true
  pub closed : lacks (closing l.type) l.name ≡ true
  pub one_line : lacks 10 (text l) ≡ true

abbrev pub meant : Line → IncludeDirective
meant l = record { inc_content = l.name; inc_type = l.type }

keyword_not_white : (t : Bytes) → skip_white (codes "include" ++ t) ≡ codes "include" ++ t
unfolding skip_white is_white
keyword_not_white t = refl

opening_not_white :
    (type : IncludeType) (t : Bytes) → skip_white (opening type ∷ t) ≡ opening type ∷ t
unfolding skip_white is_white
opening_not_white include_type_angle t = refl
opening_not_white include_type_quote t = refl

opening_not_next : (type : IncludeType) → (opening type == 95) ≡ false
opening_not_next include_type_angle = refl
opening_not_next include_type_quote = refl

delimited-quoted :
    (type : IncludeType) (name after : Bytes)
    → lacks (closing type) name ≡ true
    → delimited (opening type ∷ (name ++ closing type ∷ after))
      ≡ some (record { inc_content = name; inc_type = type })
unfolding delimited directive
delimited-quoted include_type_angle name after h = rw (before_byte-append 62 name after h) refl
delimited-quoted include_type_quote name after h = rw (before_byte-append 34 name after h) refl

scan_line-text : (l : Line) → IsLine l → scan_line (text l) ≡ some (meant l)
unfolding scan_line
scan_line-text l v =
    let rest = codes "include" ++ (l.spaces ++ quoted l) in
    rw
      (
        behind_byte-append 35 l.before (l.blanks ++ rest) v.first,
        skip_white-append l.blanks rest v.blank (keyword_not_white (l.spaces ++ quoted l)),
        keyword l.spaces (l.name ++ closing l.type ∷ l.after) (opening l.type) v.space
            (opening_not_next l.type),
        skip_white-append l.spaces (quoted l) v.space (opening_not_white l.type _),
      )
      (delimited-quoted l.type l.name l.after v.closed)

split_lines-append :
    (s t : Bytes) → lacks 10 s ≡ true → split_lines (s ++ 10 ∷ t) ≡ s ∷ split_lines t
unfolding split_lines add_to_line
split_lines-append [] t h = refl
split_lines-append (c ∷ s) t h =
    let other : (c == 10) ≡ false = ground arith in
    rw (other, split_lines-append s t (ground arith), add_to_line) refl

-- The lines, each with its newline.
pub contents : List Line → Bytes
contents [] = []
contents (l ∷ ls) = text l ++ 10 ∷ contents ls

abbrev AreLines : List Line → Type 0
AreLines ls = All IsLine ls

scan-contents :
    (ls : List Line) → AreLines ls → scan_lines (split_lines (contents ls)) ≡ map meant ls
unfolding contents scan_lines split_lines collect scan_line behind_byte
scan-contents [] v = refl
scan-contents (l ∷ ls) (v, vs) =
    rw
      (
        split_lines-append (text l) (contents ls) v.one_line,
        scan_lines,
        scan_line-text l v,
        scan-contents ls vs,
        collect,
      )
      refl

-- A file of lines that each have a directive, with an angle or a quoted name, any blanks between the
-- hash, the keyword and the name, anything without a hash before it and anything behind it: the
-- scanner finds exactly the directives, with their names and kinds, in the order of the lines.
pub find_file_includes-contents :
    (ls : List Line) → AreLines ls → find_file_includes (some (contents ls)) ≡ some (map meant ls)
unfolding find_file_includes
find_file_includes-contents ls v = ap some (scan-contents ls v)
