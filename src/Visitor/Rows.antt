-- ===== src/Visitor/Rows.antt =====
-- api/src/models/visitor-session.ts: the ids of the rows that pass a test.
use livechat.Prelude.{
  String, ◌≡◌, Bool, true, List, [], ◌∷◌, map, filter, includes, arith, eq_iff, All, All-map,
}
use livechat.Models.{VisitorSession}

abbrev pub ids_of : (VisitorSession → Bool) → List VisitorSession → List String
ids_of p xs = map (λ s. s.id) (filter p xs)

includes_more :
    (p : VisitorSession → Bool) (a : String) (x : VisitorSession) (xs : List VisitorSession)
    → includes a (ids_of p xs) ≡ true
    → includes a (ids_of p (x ∷ xs)) ≡ true
includes_more p a x xs h = ground arith

-- A row that passes is listed by its id.
pub listed :
    (p : VisitorSession → Bool) (xs : List VisitorSession)
    → All (λ s. p s ≡ true → includes s.id (ids_of p xs) ≡ true) xs
listed p [] = tt
listed p (x ∷ xs) = (
  (λ e. ground (arith, eq_iff x.id x.id)),
  All-map xs (λ s h e. includes_more p s.id x xs (h e)) (listed p xs),
)
