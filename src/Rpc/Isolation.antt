-- ===== src/Rpc/Isolation.antt =====
-- What a message can reach: replies touch the books of the shares only, and methods never do.
use primo_arm_miner.Prelude.{
  ℕ, ◌<◌, ◌≤◌, ◌≡◌, refl, ◌⊎◌, true, false, Option, none, some, List, [], ◌∷◌, ◌++◌, Bytes, codes,
}
use primo_arm_miner.Json.{Jansson}
use primo_arm_miner.RpcId.{stratum_parse_rpc_id}
use primo_arm_miner.Redirect.{redirect_of}
use primo_arm_miner.Peer.{
  MessageStatus, ok, ignored, fatal, Sent, text_result, true_result, method_error, Settings, Peer,
  stratum_reconnect, stratum_disconnect, note_redirect,
}
use primo_arm_miner.Submit.{stratum_reset_session_runtime}
use primo_arm_miner.Rpc.Dropped.{Dropped, disconnect-Dropped}
use primo_arm_miner.Rpc.{Method, reconnect, stratum_method_handlers, find_handler}

-- The id that a reply answers.
abbrev pub answers : {V : Type 0} → Sent V → V
answers (text_result id text) = id
answers (true_result id) = id
answers (method_error id) = id

-- At most one reply more, and that to the id, which is then not null.
abbrev pub Answered :
    (j : Jansson) → Option j.Value → (outbox outbox' : List (Sent j.Value)) → Type 0
Answered j id outbox outbox' =
    (outbox' ≡ outbox)
    ⊎ ((reply : Sent j.Value) × (id ≡ some (answers reply))
        × (j.json_is_null id ≡ false)
        × (outbox' ≡ outbox ++ reply ∷ []))

module _ {D : Type 0} {j : Jansson} where
  abbrev pub Sees : Option j.Value → Peer D j → Peer D j → Type 0
  Sees id p p' = (p'.books ≡ p.books) × Answered j id p.outbox p'.outbox

  -- A height is no matter of the shares, and is not answered by itself.
  abbrev Quiet : Peer D j → Peer D j → Type 0
  Quiet p p' = (p'.books ≡ p.books) × (p'.outbox ≡ p.outbox)

module _ {D : Type 0} {j : Jansson} (c : Settings D j) where
  -- A valid redirect: the session is dropped, with its new URL and the request to reconnect.
  pub record Redirected (params : Option j.Value) (p p' : Peer D j) : Type 0 where
    pub url : Bytes
    pub valid : redirect_of j c.use_tls params ≡ some url
    pub redirect : p'.redirect ≡ some url
    pub requested : p'.books.submits.reconnect_requested ≡ true
    pub dropped : Dropped p p'

  abbrev pub MethodEnds : Method → (id params : Option j.Value) → Peer D j → Peer D j → Type 0
  MethodEnds method id params p p' =
      Sees id p p' ⊎ ((method ≡ Method.reconnect) × Redirected params p p')

  redirected :
      (params : Option j.Value) (url : Bytes) (p : Peer D j)
      → redirect_of j c.use_tls params ≡ some url
      → Redirected params p (stratum_reconnect c params p).0
  unfolding stratum_reconnect
  redirected params url p e =
      let q = note_redirect c url p in
      let d = disconnect-Dropped c q in
      rw (e, stratum_reconnect)
        (record {
          url = url;
          valid = e;
          redirect = unfold stratum_disconnect in refl;
          requested = unfold stratum_disconnect stratum_reset_session_runtime in refl;
          dropped = record {
            closed = d.closed;
            same_totals = d.same_totals;
            same_accepted = d.same_accepted;
            same_rejected = d.same_rejected;
            same_outbox = d.same_outbox;
            same_xnonce1 = d.same_xnonce1;
            same_xnonce2_size = d.same_xnonce2_size;
          };
        })

  -- What a message with a method does.
  abbrev pub MethodValue : (method : Bytes) → (val : Option j.Value) → (p p' : Peer D j) → Type 0
  MethodValue method val p p' =
      Sees (j.json_object_get val (codes "id")) p p'
      ⊎ ((find_handler method stratum_method_handlers ≡ some Method.reconnect)
          × Redirected (j.json_object_get val (codes "params")) p p')

  -- What a message without a method does: it is read as a reply.
  abbrev pub IsReply : (val : Option j.Value) → (p p' : Peer D j) → MessageStatus → Type 0
  IsReply val p p' status =
      ((stratum_parse_rpc_id j (j.json_object_get val (codes "id")) ≡ none)
        × (status ≡ fatal)
        × (p' ≡ p))
      ⊎ ((id : ℕ) × (stratum_parse_rpc_id j (j.json_object_get val (codes "id")) ≡ some id)
          × (((id < 10) × (status ≡ ignored) × (p' ≡ p))
              ⊎ ((10 ≤ id) × (status ≡ ok) × (p' ≡ record p { books = p'.books }))))
