-- ===== src/InboundTokens/Tests.antt =====
-- The theorem at a concrete input.
use mcp4openapi.Prelude.{◌≡◌, refl, String, some, none, [], ◌∷◌, Map, get, delete_where}
use mcp4openapi.InboundTokens.{TokenRecord, evict_expired}
use mcp4openapi.InboundTokens.Kept.{Calls}

-- A store of two tokens, of which one has expired.
abbrev old_records : Map (TokenRecord String)
old_records =
    ("a", record { token = "a"; principal = "ann"; issued_at = 0; expires_at = some 50 })
    ∷ ("b", record { token = "b"; principal = "bob"; issued_at = 10; expires_at = none })
    ∷ []

abbrev one_call : Calls String 2
one_call = ("d", "dan", some 900, 300, 300) ∷ []

fresh : get "c" (evict_expired 2 100 old_records) ≡ none
unfolding get delete_where
fresh = refl
