-- ===== src/Access/Plain.antt =====
-- Keys to run the code of realm/keypair/keypair.go on: the signature of a text shows the key.
use foilen_box.Prelude.{refl, sym, ◌∙◌, ap, some_inj, some, ◌++◌, Text, text_eq, text_eq_refl}
use foilen_box.Access.KeyPairs.{Crypto}

abbrev pub plain : Crypto
plain = record {
  Private = Text;
  Public = Text;
  md5 = λ t. t;
  get_public = λ k. k;
  sign = λ k t. some (k ++ t);
  verify = λ k t sig. some (text_eq (k ++ t) sig);
  marshal = λ k. some k;
  unmarshal = λ raw. some raw;
  id_of_public = λ k. some k;
  encode_base64 = λ t. t;
  decode_base64 = λ t. some t;
  verify-sign = λ k t sig e.
      ap (λ x. some (text_eq (k ++ t) x)) (sym (some_inj e)) ∙ ap some (text_eq_refl (k ++ t));
  decode-encode = λ t. refl;
  unmarshal-marshal = λ k raw e. sym e;
}
