-- ===== src/Lv2/Uris.antt =====
-- src/lv2plugin.cpp: `UridMapper`, which gives each URI of the plugins a number. The order of its map
-- does not matter, and is here that of the calls, newest first.
use text.Mathlib.Text.{◌==◌ as str_eq}
use text.Mathlib.TextEquality.{eq_iff}
use bipscript.Prelude.{
  ℕ, ◌+◌, ◌<◌, ◌≡◌, refl, ap, inl, inr, List, [], ◌∷◌, true, Option, none, some, if◌then◌else◌,
  Bool-cases, ==_iff, length, arith, String, ◌==◌, ne→==_false,
}

abbrev pub UridMap : Type 0
UridMap = List (String × ℕ)

unfoldable pub find : String → UridMap → Option ℕ
find uri [] = none
find uri ((u, id) ∷ m) = if str_eq u uri then some id else find uri m

abbrev pub numbered : String → UridMap → Option ℕ → ℕ × UridMap
numbered uri m (some id) = (id, m)
numbered uri m none = let id = length m + 10 in (id, (uri, id) ∷ m)

-- `uriToId`, with the map that it leaves.
unfoldable pub uri_to_id : String → UridMap → ℕ × UridMap
uri_to_id uri m = numbered uri m (find uri m)

-- `idToUri`; none is the null pointer.
unfoldable pub id_to_uri : ℕ → UridMap → Option String
id_to_uri id [] = none
id_to_uri id ((u, i) ∷ m) = if i == id then some u else id_to_uri id m

-- The URIs differ, and have the numbers from 10 on.
abbrev pub IsNumbered : UridMap → Type 0
IsNumbered [] = Unit {0}
IsNumbered ((u, i) ∷ m) = (i ≡ length m + 10) × (find u m ≡ none) × IsNumbered m

same-uri : (uri : String) → str_eq uri uri ≡ true
same-uri uri = (eq_iff uri uri).1 refl

find-lt :
    (uri : String) (id : ℕ) (m : UridMap) → IsNumbered m → find uri m ≡ some id → id < length m + 10
unfolding find
find-lt uri id [] n e = cc
find-lt uri id ((u, i) ∷ m) n e = elim (Bool-cases (str_eq u uri)) [
  | inl t ↦ let k : ◌≡◌ {A = Option ℕ} (some i) (some id) = rw t at e in ground (arith, k)
  | inr t ↦ let k : find uri m ≡ some id = rw t at e in omega (arith, find-lt uri id m n.2 k)
]

id_to_uri-find :
    (uri : String) (id : ℕ) (m : UridMap)
    → IsNumbered m
    → find uri m ≡ some id
    → id_to_uri id m ≡ some uri
unfolding find id_to_uri
id_to_uri-find uri id [] n e = cc
id_to_uri-find uri id ((u, i) ∷ m) n e = elim (Bool-cases (str_eq u uri)) [
  | inl t ↦
      let k : ◌≡◌ {A = Option ℕ} (some i) (some id) = rw t at e in
      rw ((==_iff i id).1 (cc k)) (ap some ((eq_iff u uri).0 t))
  | inr t ↦
      let k : find uri m ≡ some id = rw t at e in
      rw (ne→==_false i id (λ same. omega (arith, find-lt uri id m n.2 k, same)))
        (id_to_uri-find uri id m n.2 k)
]

-- What is known stays known.
abbrev pub Grows : UridMap → UridMap → Type 0
Grows m m' = (uri : String) (id : ℕ) → find uri m ≡ some id → find uri m' ≡ some id

grow : (uri : String) (id : ℕ) (m : UridMap) → find uri m ≡ none → Grows m ((uri, id) ∷ m)
unfolding find
grow uri id m new v j e = elim (Bool-cases (str_eq uri v)) [
  | inl t ↦ ground (arith, ap (λ w. find w m) ((eq_iff uri v).0 t))
  | inr t ↦ rw t e
]

pub record IsMapped (uri : String) (m : UridMap) (r : ℕ × UridMap) : Type 0 where
  pub is_numbered : IsNumbered r.1
  pub grows : Grows m r.1
  pub finds : find uri r.1 ≡ some r.0

numbered-IsMapped :
    (uri : String) (m : UridMap) (o : Option ℕ)
    → IsNumbered m
    → find uri m ≡ o
    → IsMapped uri m (numbered uri m o)
unfolding find
numbered-IsMapped uri m (some id) n e = record { is_numbered = n; grows = λ v j h. h; finds = e }
numbered-IsMapped uri m none n e = record {
  is_numbered = (refl, e, n);
  grows = grow uri (length m + 10) m e;
  finds = rw (same-uri uri) refl;
}

-- From a map whose URIs differ and are numbered from 10 on, `uriToId` leaves such a map, in which the
-- number that it returns stands for the URI, both ways; all that was known is as before, both ways; and
-- a further call for the URI gives the same number and changes nothing.
pub uri_to_id_lem :
    (uri : String) (m : UridMap)
    → IsNumbered m
    → let r = uri_to_id uri m in
      IsNumbered r.1
      × (id_to_uri r.0 r.1 ≡ some uri)
      × (uri_to_id uri r.1 ≡ r)
      × ((v : String) (j : ℕ)
          → find v m ≡ some j
          → (find v r.1 ≡ some j) × (id_to_uri j r.1 ≡ some v))
unfolding uri_to_id
uri_to_id_lem uri m n =
    let r = uri_to_id uri m in
    let p = numbered-IsMapped uri m (find uri m) n refl in
    (
      p.is_numbered,
      id_to_uri-find uri r.0 r.1 p.is_numbered p.finds,
      ap (numbered uri r.1) p.finds,
      λ v j h. (p.grows v j h, id_to_uri-find v j r.1 p.is_numbered (p.grows v j h)),
    )
