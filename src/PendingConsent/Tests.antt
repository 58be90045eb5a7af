-- ===== src/PendingConsent/Tests.antt =====
-- The theorems at concrete inputs, with a cipher that leaves the text as it is.
use mcp4openapi.Prelude.{◌≡◌, refl, String, true, some, [], ◌∷◌, arith, Map}
use mcp4openapi.PendingConsent.{
  Row, absent, found, Codec, IsCodec, is_pending_id_shape, create, peek, consume,
}
use mcp4openapi.PendingConsent.Once.{consume_once}

abbrev plain : Codec String String
plain = record {
  hash_pending_id = λ id. id;
  seal = λ key iv aad text. text;
  unseal = λ key aad text. some text;
  additional_data = λ id profile. id;
  to_json = λ payload. payload;
  from_json = λ text. some text;
  profile_of = λ payload. "gitlab";
}

plain-IsCodec : IsCodec plain
plain-IsCodec = record {
  unseal-seal = λ key iv aad text. refl;
  from_json-to_json = λ payload. refl;
}

abbrev an_id : String
an_id = "0123456789abcdefghijklmnopqrstuvwxyzABCDE-_"

an_id_shape : is_pending_id_shape an_id ≡ true
unfolding is_pending_id_shape
an_id_shape = refl

abbrev waiting_rows : Map Row
waiting_rows = ("x", record { profile_id = "gitlab"; ciphertext = "old"; expires_at = 50 }) ∷ []

abbrev stored : Map Row
stored = create plain "key" an_id "iv" "tokens" 1000 1001 waiting_rows

consume_once_example :
    (let s' = (consume plain "key" an_id "gitlab" 2000 stored).1 in
      (peek plain "key" an_id "gitlab" 2000 stored ≡ found "tokens")
      × ((consume plain "key" an_id "gitlab" 2000 stored).0 ≡ found "tokens")
      × (consume plain "key" an_id "github" 3000 s' ≡ (absent, s'))
      × (peek plain "key" an_id "github" 3000 s' ≡ absent))
consume_once_example =
    consume_once plain "key" plain-IsCodec an_id "iv" "github" "tokens" 1000 1001 2000 3000
      waiting_rows an_id_shape (omega arith)
