-- ===== src/Demo/Auth/Laws.antt =====
-- Proofs about the stored session and the ends of a login (demo/src/useAuth.ts).
use Prim.Native.String.{String}
use text.Mathlib.Text.{◌==◌}
use paystream_contracts.Prelude.{
  ◌≡◌, refl, arith, Bool, true, false, List, none, some, if◌then◌else◌,
}
use paystream_contracts.Prelude.Dict.{lookup, insert, lookup-insert, lookup-remove}
use paystream_contracts.Js.Float.{Float}
use paystream_contracts.Demo.Auth.{
  Storage, Session, Auth, chosen, is_true, token_key, expiry_key, remember_key,
  read_persisted_session, persist_session, store_items, forget, read_expiry, is_valid, falsy,
}

module _ (f : Float) where
  open f use {F, add, mul, lt, number, show, of_int}

  abbrev pub signed_out : Bool → Session f
  signed_out remember = record { token = none; token_expiry = none; remember_me = remember }

  abbrev pub signed_in : String → F → Bool → Session f
  signed_in token expiry remember = record {
    token = some token;
    token_expiry = some expiry;
    remember_me = remember;
  }

  -- A text that is stored for a time reads back as the time.
  pub record IsStorable (expiry : F) : Type 0 where
    pub truthy : falsy f expiry ≡ false
    pub shown : (show expiry == "") ≡ false
    pub read_back : number (show expiry) ≡ expiry

  stored_token :
      (token : String) (expiry : F) (m : List (String × String))
      → lookup token_key (store_items f token expiry m) ≡ some token
  unfolding store_items
  stored_token token expiry m = simp (lookup-insert)

  stored_expiry :
      (token : String) (expiry : F) (m : List (String × String))
      → lookup expiry_key (store_items f token expiry m) ≡ some (show expiry)
  unfolding store_items
  stored_expiry token expiry m = simp (lookup-insert)

  stored_remember :
      (token : String) (expiry : F) (m : List (String × String))
      → lookup remember_key (store_items f token expiry m) ≡ lookup remember_key m
  unfolding store_items
  stored_remember token expiry m = simp (lookup-insert)

  expiry_read : (expiry : F) → IsStorable expiry → read_expiry f (some (show expiry)) ≡ some expiry
  unfolding read_expiry
  expiry_read expiry k = ground (arith, k.shown, k.read_back)

  valid_iff_early :
      (now : F) (token : String) (expiry : F)
      → (token == "") ≡ false
      → IsStorable expiry
      → is_valid f now (some token) (some expiry) ≡ lt now expiry
  unfolding is_valid
  valid_iff_early now token expiry h k = rw (h, k.truthy) refl

  -- What is read where the items of a session are stored.
  read_stored :
      (now : F) (token : String) (expiry : F) (remember : Bool) (st : Storage)
      → (token == "") ≡ false
      → IsStorable expiry
      → is_true (lookup remember_key st.local_storage) ≡ remember
      → lookup token_key (chosen remember st) ≡ some token
      → lookup expiry_key (chosen remember st) ≡ some (show expiry)
      → read_persisted_session f now st
        ≡ (if lt now expiry then signed_in token expiry remember else signed_out remember)
  unfolding read_persisted_session
  read_stored now token expiry remember st h k r t e =
      rw (r, t, e, expiry_read expiry k, valid_iff_early now token expiry h k) refl

  -- What is read after a session was stored, whatever the storage held: the session up to its
  -- expiry, and after it none.
  pub read-persist_session :
      (now : F) (token : String) (expiry : F) (remember : Bool) (st : Storage)
      → (token == "") ≡ false
      → IsStorable expiry
      → read_persisted_session f now (persist_session f token expiry remember st)
        ≡ (if lt now expiry then signed_in token expiry remember else signed_out remember)
  unfolding persist_session
  read-persist_session now token expiry true st h k =
      read_stored now token expiry true (persist_session f token expiry true st) h k
        (rw (stored_remember token expiry (insert remember_key "true" st.local_storage))
          (simp (lookup-insert)))
        (stored_token token expiry (insert remember_key "true" st.local_storage))
        (stored_expiry token expiry (insert remember_key "true" st.local_storage))
  read-persist_session now token expiry false st h k =
      read_stored now token expiry false (persist_session f token expiry false st) h k
        (simp (lookup-insert)) (stored_token token expiry st.session_storage)
        (stored_expiry token expiry st.session_storage)

  forgotten : (m : List (String × String)) → lookup token_key (forget m) ≡ none
  unfolding forget
  forgotten m = simp (lookup-remove)
