-- ===== src/Visitor/Minimize/Network.antt =====
-- api/src/utils/pii-minimize.ts: what is kept of an address is its network.
use livechat.Prelude.{String, ◌≡◌, refl, sym, ap, ◌∙◌, true, false, some, List, [], ◌∷◌, ◌==◌}
use livechat.Visitor.Minimize.{
  TextFunctions, is_ipv4, truncate_ipv4, expand_ipv6, prefix_of_groups, truncate_ipv6, candidate,
  truncate_trimmed, truncate_ip,
}

module _ (text : TextFunctions) (a b : String) where
  -- Two IPv4 addresses that differ in the last octet alone are stored as the same text, so the stored
  -- address does not tell which host it was.
  pub truncate_ip-ipv4 :
      (x y z v w : String)
      → text.split "." (candidate text (text.trim a)) ≡ x ∷ y ∷ z ∷ v ∷ []
      → text.split "." (candidate text (text.trim b)) ≡ x ∷ y ∷ z ∷ w ∷ []
      → is_ipv4 text (candidate text (text.trim a)) ≡ true
      → is_ipv4 text (candidate text (text.trim b)) ≡ true
      → (text.trim a == "") ≡ false
      → (text.trim b == "") ≡ false
      → truncate_ip text (some a) ≡ truncate_ip text (some b)
  unfolding truncate_ip truncate_trimmed truncate_ipv4
  truncate_ip-ipv4 x y z v w p q i j k l = rw (k, l, i, j, p, q) refl

  -- Two IPv6 addresses with the same first three groups of sixteen bits are stored as the same text.
  pub truncate_ip-ipv6 :
      (x y z : String) (host host' : List String)
      → expand_ipv6 text (text.trim a) ≡ some (x ∷ y ∷ z ∷ host)
      → expand_ipv6 text (text.trim b) ≡ some (x ∷ y ∷ z ∷ host')
      → is_ipv4 text (candidate text (text.trim a)) ≡ false
      → is_ipv4 text (candidate text (text.trim b)) ≡ false
      → text.has_colon (text.trim a) ≡ true
      → text.has_colon (text.trim b) ≡ true
      → (text.trim a == "") ≡ false
      → (text.trim b == "") ≡ false
      → truncate_ip text (some a) ≡ truncate_ip text (some b)
  unfolding truncate_ip truncate_trimmed truncate_ipv6
  truncate_ip-ipv6 x y z host host' p q i j c d k l =
      rw (k, l, i, j, c, d) (ap (prefix_of_groups text) p ∙ sym (ap (prefix_of_groups text) q))
