-- ===== src/Server/Access/Laws.antt =====
-- Which requests sigimora-server/src/auth.rs lets in.
use sigimora_api_backend.Base.{
  find-append, found_Elem, kept_by_filter, ok_injective, ◌≤◌, ◌≡◌, ◌≢◌, refl, sym, ap, subst, ◌∙◌,
  true, false, not, ◌||◌, Option, none, some, [], ◌∷◌, ◌++◌, map, find, any, filter, length,
  length-append, length-map, Elem, ltb, ok, ◌==◌, inl, inr, Bool-cases, Option-cases, arith,
}
use sigimora_api_backend.Math.Suite.{Suite, Bytes}
use sigimora_api_backend.Ledger.Maps.{same_id, same_id_refl, same_id_eq}
use sigimora_api_backend.Server.{admin}
use sigimora_api_backend.Server.Store as Store
use sigimora_api_backend.Server.Store.{Database, ApiKeyRow, touch}
use sigimora_api_backend.Server.Texts.{Texts}
use sigimora_api_backend.Server.Access.{
  AuthenticatedUser, bearer, letter, api_key_prefix, strip_prefix, sha256_hex, generate_api_key,
  from_request_parts, delete_api_key,
}

pub strip_prefix_eq : (p xs rest : Bytes) → strip_prefix p xs ≡ some rest → xs ≡ p ++ rest
unfolding strip_prefix
strip_prefix_eq [] xs rest e = cc
strip_prefix_eq (b ∷ p) [] rest e = cc
strip_prefix_eq (b ∷ p) (x ∷ xs) rest e = elim (Bool-cases (b == x)) [
  | inl q ↦
      let here : b ≡ x = ground arith in
      let after : strip_prefix p xs ≡ some rest = rw (q) at e in
      ap (λ k. k ∷ xs) (sym here) ∙ ap (◌∷◌ b) (strip_prefix_eq p xs rest after)
  | inr q ↦ let no : none ≡ some rest = rw (q) at e in cc
]

module _ (c : Suite) (texts : Texts) where
  -- The key of a row lets the request in, with the row's role.
  pub from_request_parts_found :
      (now key : Bytes) (row : ApiKeyRow) (db : Database)
      → 16 ≤ length key
      → length key ≤ 256
      → find (λ k. same_id k.key_hash (sha256_hex c texts key)) db.api_keys ≡ some row
      → (from_request_parts c texts now (some (bearer ++ key)) db).1
        ≡ ok (record { id = row.id; role = row.role })
  unfolding from_request_parts Store.get_api_key_by_hash Store.touch_api_key
  from_request_parts_found now key row db lo hi f =
      let fits : (ltb (length key) 16 || ltb 256 (length key)) ≡ false = ground (arith, lo, hi) in
      rw (fits, f, (found_Elem _ db.api_keys row f).1) refl

  -- The table with a new key.
  abbrev with_key : ApiKeyRow → Database → Database
  with_key row db = record db { api_keys = db.api_keys ++ row ∷ [] }

  -- A key that was made and stored, the first with its id and its hash, lets a request in with the role
  -- that it was made for.
  pub from_request_parts-generate_api_key :
      (entropy id now label role later : Bytes) (db : Database)
      → length entropy ≡ 16
      → any (λ k. same_id k.id id) db.api_keys ≡ false
      → find
          (λ k. same_id k.key_hash (generate_api_key c texts entropy id now label role).1.key_hash)
          db.api_keys
        ≡ none
      → (from_request_parts c texts later
          (some (bearer ++ (generate_api_key c texts entropy id now label role).0))
          (Store.insert_api_key (generate_api_key c texts entropy id now label role).1 db).0).1
        ≡ ok (record { id = id; role = role })
  unfolding generate_api_key Store.insert_api_key
  from_request_parts-generate_api_key entropy id now label role later db l f n =
      let raw = api_key_prefix ++ map letter entropy in
      let made = (generate_api_key c texts entropy id now label role).1 in
      let size : length raw ≡ 25 =
        omega (
          arith,
          length-append api_key_prefix (map letter entropy),
          length-map letter entropy,
          l,
        ) in
      rw (f) (
        from_request_parts_found later raw made (with_key made db) (omega (arith, size))
          (omega (arith, size))
          (find-append _ db.api_keys made n (same_id_refl (sha256_hex c texts raw))))

  -- A request that is let in names a key of the table, whose row's id and role it gets.
  from_request_parts_ok :
      (now : Bytes) (header : Option Bytes) (db db' : Database) (caller : AuthenticatedUser)
      → from_request_parts c texts now header db ≡ (db', ok caller)
      → (key : Bytes) × (row : ApiKeyRow) × (header ≡ some (bearer ++ key))
        × Elem row db.api_keys
        × (row.key_hash ≡ sha256_hex c texts key)
        × (16 ≤ length key)
        × (length key ≤ 256)
        × (caller ≡ record { id = row.id; role = row.role })
  unfolding from_request_parts Store.get_api_key_by_hash Store.touch_api_key
  from_request_parts_ok now none db db' caller e = cc
  from_request_parts_ok now (some text) db db' caller e =
      elim (Option-cases (strip_prefix bearer text)) [
        | inl q ↦ let no = rw (q) at e in cc
        | inr (key, q) ↦ elim (Bool-cases (ltb (length key) 16 || ltb 256 (length key))) [
          | inl l ↦ let no = rw (q, l) at e in cc
          | inr l ↦
              elim (Option-cases
                (find (λ k. same_id k.key_hash (sha256_hex c texts key)) db.api_keys)) [
                  | inl f ↦ let no = rw (q, l, f) at e in cc
                  | inr (row, f) ↦
                      let (a, b) = found_Elem _ db.api_keys row f in
                      let done = rw (q, l, f, b) at e in
                      (
                        key,
                        row,
                        ap some (strip_prefix_eq bearer text key q),
                        a,
                        same_id_eq _ _ b,
                        ground (arith, l),
                        ground (arith, l),
                        sym (ok_injective (ap (λ r. r.1) done)),
                      )
                ]
        ]
      ]

  -- In the database that an admin leaves who revokes a key, no request is let in with the key's id.
  pub from_request_parts-delete_api_key :
      (now id : Bytes) (header : Option Bytes) (deleter caller : AuthenticatedUser)
      (db db' : Database)
      → deleter.role ≡ admin
      → from_request_parts c texts now header (delete_api_key deleter id db).0 ≡ (db', ok caller)
      → caller.id ≢ id
  unfolding delete_api_key Store.delete_api_key
  from_request_parts-delete_api_key now id header deleter caller db db' a e same =
      let is_admin : same_id deleter.role admin ≡ true =
        ap (λ r. same_id r admin) a ∙ same_id_refl admin in
      let table : (delete_api_key deleter id db).0.api_keys
          ≡ filter (λ k. not (same_id k.id id)) db.api_keys =
        rw (is_admin) refl in
      let (key, row, _, here, _, _, _, r) = from_request_parts_ok now header _ db' caller e in
      let kept : not (same_id row.id id) ≡ true =
        kept_by_filter _ db.api_keys row (subst (Elem row) table here) in
      let gone : not (same_id id id) ≡ true =
        ap (λ i. not (same_id i id)) (sym same ∙ ap (λ (u : AuthenticatedUser). u.id) r) ∙ kept in
      let no : false ≡ true = ap not (sym (same_id_refl id)) ∙ gone in cc
