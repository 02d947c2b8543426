-- ===== src/Tests/Server.antt =====
-- Runs of the theorems on a network of two nodes with the threshold 1.
use sigimora_api_backend.Base.{
  List, ℕ, ◌≡◌, ◌<◌, refl, true, false, some, none, [], ◌∷◌, map, ◌==◌, ok, All, arith,
}
use sigimora_api_backend.Math.Suite.{Bytes}
use sigimora_api_backend.Samples.{sample, zeros}
use sigimora_api_backend.Samples.FiveField.{z1, z2, z3, z4}
use sigimora_api_backend.Shamir.Poly.{horner}
use sigimora_api_backend.Shamir.Interpolation.{Distinct}
use sigimora_api_backend.Server.{created, dkg_complete}
use sigimora_api_backend.Server.Store.{
  Database, SignedTxRow, NetworkRow, NodeRow, rows_of, sort_rows, insert_row,
}
use sigimora_api_backend.Server.Keyed.{IsNetwork, IsKeyed, IsKeyed-same}
use sigimora_api_backend.Server.Keygen.{DkgStatusResponse, run_dkg}
use sigimora_api_backend.Server.Keygen.Laws.{run_dkg-IsKeyed, key_of_run}
use sigimora_api_backend.Server.Signing.{SignRequest, SignResponse, sign_message, verify_signature}
use sigimora_api_backend.Server.Signing.Laws.{verify_signature-sign_message}
use sigimora_api_backend.Server.Batch.{
  BatchSignRequest, BatchSignEntry, BatchSignResponse, batch_sign,
}
use sigimora_api_backend.Server.Batch.Laws.{IsValid, batch_sign-IsValid}
use sigimora_api_backend.Ledger.Maps.{same_id}
use sigimora_api_backend.Server.Tracing.{trace_signers}
use sigimora_api_backend.Server.Tracing.Members.{SignerInfo}
use sigimora_api_backend.Server.Tracing.Laws.{trace_signers_any_key}
use sigimora_api_backend.Server.Refreshing.{RefreshResponse, refresh_network}
use sigimora_api_backend.Server.Refreshing.Laws.{refreshed}
use sigimora_api_backend.Server.Refreshing.Kept.{refresh_network-IsKeyed}
use sigimora_api_backend.Tests.{ones, texts}

abbrev pub net : Bytes
net = 7 ∷ []

abbrev network : NetworkRow
network = record {
  id = net;
  n = 2;
  t = 1;
  f = 0;
  quorum = 2;
  collective_pk = none;
  tracking_pk = some (2 ∷ zeros 95);
  tracking_sk = none;
  state = created;
  created_at = [];
}

abbrev node : ℕ → ℕ → NodeRow
node id secret = record {
  id = id;
  node_id = id;
  network_id = net;
  public_key = 1 ∷ zeros 95;
  secret_key = secret ∷ zeros 31;
  company_name = none;
  epoch = 0;
  created_at = [];
}

abbrev new_network : Database
new_network = record {
  api_keys = [];
  networks = network ∷ [];
  nodes = node 1 3 ∷ node 2 3 ∷ [];
  ledger = [];
  signed_txs = [];
  last_node = 2;
  last_block = 0;
}

new_network-IsNetwork : IsNetwork sample net 2 1 new_network
unfolding rows_of sort_rows insert_row
new_network-IsNetwork = record {
  row = network;
  tracking_pk = z2;
  secret_of = λ k. 3 ∷ zeros 31;
  found = refl;
  size = refl;
  threshold = refl;
  ready = refl;
  tracking = refl;
  holds = record {
    count = refl;
    secrets = ((refl, refl, (z1, refl), refl), ((refl, refl, (z1, refl), refl), tt));
  };
}

run_dkg-IsKeyed_example :
    (db : Database) × (resp : DkgStatusResponse) × (run_dkg sample texts
        (λ i. ones)
        (λ i. ones)
        net
        new_network
      ≡ (db, ok resp))
    × IsKeyed sample net 2 1 (key_of_run sample net 2 1 (λ i. ones) (λ i. ones)) db
run_dkg-IsKeyed_example =
    run_dkg-IsKeyed sample net texts 2 1 (λ i. ones) (λ i. ones) new_network new_network-IsNetwork
      (omega arith) (omega arith) (omega arith)

-- The network with the shares of 3 + x.
abbrev pub keyed : Database
keyed = record new_network {
  networks = record network { collective_pk = some (3 ∷ zeros 95); state = dkg_complete } ∷ [];
  nodes = node 1 4 ∷ node 2 0 ∷ [];
}

pub keyed-IsKeyed : IsKeyed sample net 2 1 (z3 ∷ z1 ∷ []) keyed
unfolding rows_of sort_rows insert_row horner
keyed-IsKeyed = record {
  row = record network { collective_pk = some (3 ∷ zeros 95); state = dkg_complete };
  tracking_pk = z2;
  found = refl;
  size = refl;
  threshold = refl;
  complete = refl;
  tracking = refl;
  key = refl;
  holds = record {
    count = refl;
    secrets = ((refl, refl, (z1, refl), refl), ((refl, refl, (z1, refl), refl), tt));
  };
  short = omega arith;
}

pub ids_apart : Distinct (z1 ∷ z2 ∷ [])
ids_apart = ((λ e. cc, tt), (tt, tt))

refresh_network-IsKeyed_example :
    (db : Database) × (resp : RefreshResponse) × (refresh_network sample (λ i. ones) net keyed
      ≡ (db, ok resp))
    × (resp.invariant_preserved ≡ true)
    × IsKeyed sample net 2 1 (refreshed sample net 2 1 (λ i. ones) (z3 ∷ z1 ∷ [])) db
refresh_network-IsKeyed_example =
    refresh_network-IsKeyed sample net 2 1 (z3 ∷ z1 ∷ []) (λ i. ones) keyed keyed-IsKeyed
      (omega arith) (omega arith) ids_apart

abbrev request : SignRequest
request = record { message = 9 ∷ []; quorum = 2 ∷ 1 ∷ [] }

ids_turned : Distinct (z2 ∷ z1 ∷ [])
ids_turned = ((λ e. cc, tt), (tt, tt))

verify_signature-sign_message_example :
    (db : Database) × (resp : SignResponse) × (sign_message sample texts
        (λ k. z1)
        (λ k. (z2, 9 ∷ []))
        (5 ∷ [])
        []
        net
        request
        keyed
      ≡ (db, ok resp))
    × ((verify_signature sample texts net
          (record { message = request.message; signature_hex = resp.combined_sig_hex })
          db).1
        ≡ ok (record { valid = true; network_id = net }))
    × IsKeyed sample net 2 1 (z3 ∷ z1 ∷ []) db
verify_signature-sign_message_example =
    verify_signature-sign_message sample net texts 2 1 (z3 ∷ z1 ∷ []) (λ k. z1) (λ k. (z2, 9 ∷ []))
      (5 ∷ []) [] (9 ∷ []) request keyed keyed-IsKeyed (omega arith) refl
      ((omega arith, omega arith), ((omega arith, omega arith), tt)) ids_turned (omega arith) refl

abbrev two_messages : BatchSignRequest
two_messages = record { messages = (9 ∷ []) ∷ (8 ∷ 1 ∷ []) ∷ []; quorum = 2 ∷ 1 ∷ [] }

-- The id of the `k`-th transaction.
abbrev numbered : ℕ → Bytes
numbered k = k ∷ []

numbered_apart : (i j : ℕ) → i < j → same_id (numbered i) (numbered j) ≡ false
numbered_apart i j l = let other : (i == j) ≡ false = ground (arith, l) in rw (other) refl

batch_sign-IsValid_example :
    (db : Database) × (resp : BatchSignResponse) × (batch_sign sample texts
        (λ k. z1)
        (λ j k. (z2, 9 ∷ []))
        numbered
        []
        net
        two_messages
        keyed
      ≡ (db, ok resp))
    × All (IsValid sample net texts db) resp.signatures
    × (map (λ (e : BatchSignEntry). e.message_hex) resp.signatures ≡ (9 ∷ []) ∷ (8 ∷ 1 ∷ []) ∷ [])
    × IsKeyed sample net 2 1 (z3 ∷ z1 ∷ []) db
batch_sign-IsValid_example =
    batch_sign-IsValid sample net texts 2 1 (z3 ∷ z1 ∷ []) (λ k. z1) (λ j k. (z2, 9 ∷ [])) numbered
      [] two_messages keyed keyed-IsKeyed (omega arith) (omega arith) (omega arith)
      ((9 ∷ [], refl), ((8 ∷ 1 ∷ [], refl), tt))
      ((omega arith, omega arith), ((omega arith, omega arith), tt)) ids_turned (omega arith)
      (λ j l. refl) numbered_apart

abbrev stored : SignedTxRow
stored = record {
  tx_id = 5 ∷ [];
  network_id = net;
  message = 9 ∷ [];
  signature = 4 ∷ zeros 47;
  quorum = 2 ∷ 1 ∷ [];
  created_at = [];
}

abbrev traced : Database
traced = record keyed { signed_txs = stored ∷ [] }

trace_signers_any_key_example :
    (signers : List SignerInfo) × (trace_signers sample texts net
        (record { tx_id = 5 ∷ []; tracking_key_hex = 4 ∷ zeros 31 })
        traced
      ≡ (traced, ok signers))
    × (map (λ (s : SignerInfo). s.node_id) signers ≡ 2 ∷ 1 ∷ [])
trace_signers_any_key_example =
    trace_signers_any_key sample texts net 2 1 (z3 ∷ z1 ∷ []) z4 z4 (2 ∷ 1 ∷ []) (5 ∷ []) stored
      traced (IsKeyed-same sample net 2 1 (z3 ∷ z1 ∷ []) keyed traced refl refl keyed-IsKeyed)
      (omega arith) refl refl refl ((omega arith, omega arith), ((omega arith, omega arith), tt))
