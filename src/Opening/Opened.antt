-- ===== src/Opening/Opened.antt =====
-- What holds of a session that has gone through the handshake.
use primo_arm_miner.Prelude.{
  ◌≡◌, ◌≢◌, refl, sym, subst, ◌↔◌, ◌⊎◌, inl, inr, Bool, true, false, Option, none, some, [], ◌∷◌,
  Bytes, codes, Bool-cases, Option-cases, if-cases, if-choice, if◌then◌else◌,
}
use primo_arm_miner.Json.{Jansson, string_of}
use primo_arm_miner.Job.{stratum_commit_job_update}
use primo_arm_miner.Nonce.{is_randomx}
use primo_arm_miner.Monero.{xmr_parse_job_view, xmr_apply_job_locked, xmr_stratum_handle_job}
use primo_arm_miner.Peer.{Settings, Peer, set_ctx}
use primo_arm_miner.Rpc.Layouts.{SessionFits, xmr_job-SessionFits}
use primo_arm_miner.Handshake.{
  Wait, waiting, answered, failed, Exchange, stratum_send_request_and_wait,
  stratum_reply_has_rpc_error,
}
use primo_arm_miner.Opening.{
  closed, nicehash_mode, stratum_store_session_id, subscribe_attempts, stratum_subscribe, first_job,
  xmr_stratum_login, after_subscribe, stratum_open_pool_connection, logged_in, login_named,
}
use primo_arm_miner.Opening.Steps.{wait-SessionFits, attempts-SessionFits, authorize-SessionFits}
use primo_arm_miner.Opening.Nicehash.{NicehashMode, nicehash_mode-NicehashMode}
use primo_arm_miner.Rpc.Dropped.{Closed, disconnect-Dropped, disconnect-SessionFits}

module _ {D : Type 0} {j : Jansson} (c : Settings D j) where
  -- A session that logs in: under a name of its own and authenticated, with the mode of its nonces.
  pub record LoggedIn (opt_nicehash : Bool) (p' : Peer D j) : Type 0 where
    pub reply : j.Value
    pub session_id : Bytes
    pub no_error : stratum_reply_has_rpc_error j false reply ≡ false
    pub named :
        string_of j (j.json_object_get (some reply) (codes "result")) (codes "id") ≡ some session_id
    pub not_empty : session_id ≢ []
    pub stored : p'.ctx.session_id ≡ some session_id
    pub authenticated : p'.ctx.authenticated ≡ true
    pub pool_owns :
        (p'.ctx.xmr_nicehash ≡ true)
        ↔ NicehashMode j opt_nicehash (
            j.json_object_get
              (j.json_object_get (some reply) (codes "result"))
              (codes "extensions"))

  -- A job changes nothing of a session but its job.
  xmr_job-same :
      (job : Option j.Value) (p : Peer D j)
      → let s' = (xmr_stratum_handle_job c.diff_of_target j job p.ctx p.runtime).0 in
        (s'.session_id ≡ p.ctx.session_id)
        × (s'.authenticated ≡ p.ctx.authenticated)
        × (s'.xmr_nicehash ≡ p.ctx.xmr_nicehash)
  unfolding xmr_stratum_handle_job
  xmr_job-same job p = elim (Option-cases (xmr_parse_job_view j job)) [
    | inl e ↦ rw (e, xmr_stratum_handle_job) (refl, refl, refl)
    | inr (v, e) ↦
        rw (e, xmr_stratum_handle_job)
          (unfold stratum_commit_job_update xmr_apply_job_locked in (refl, refl, refl))
  ]

  first_job-same :
      (job : Option j.Value) (p : Peer D j)
      → let p' = (first_job c job p).0 in
        (p'.ctx.session_id ≡ p.ctx.session_id)
        × (p'.ctx.authenticated ≡ p.ctx.authenticated)
        × (p'.ctx.xmr_nicehash ≡ p.ctx.xmr_nicehash)
  unfolding first_job
  first_job-same job p =
      if-choice {A = Peer D j × Option Bool}
        (λ z.
          (z.0.ctx.session_id ≡ p.ctx.session_id)
          × (z.0.ctx.authenticated ≡ p.ctx.authenticated)
          × (z.0.ctx.xmr_nicehash ≡ p.ctx.xmr_nicehash))
        (j.json_is_object job) (xmr_job-same job p) (refl, refl, refl)

  first_job-SessionFits :
      (job : Option j.Value) (p : Peer D j)
      → SessionFits p.ctx
      → SessionFits (first_job c job p).0.ctx
  unfolding first_job
  first_job-SessionFits job p h =
      if-choice {A = Peer D j × Option Bool} (λ z. SessionFits z.0.ctx) (j.json_is_object job)
        (xmr_job-SessionFits c job p h) h

  -- What a login comes to: the buffers still fit, and success means that the session is logged in.
  abbrev LoginEnds : Bool → Peer D j × Option Bool → Type 0
  LoginEnds opt_nicehash (p', outcome) =
      SessionFits p'.ctx × ((outcome ≢ some true) ⊎ LoggedIn opt_nicehash p')

  login_named-LoginEnds :
      (opt_nicehash : Bool) (reply : j.Value) (p : Peer D j)
      → stratum_reply_has_rpc_error j false reply ≡ false
      → SessionFits p.ctx
      → LoginEnds opt_nicehash (
          login_named c opt_nicehash
            (j.json_object_get (some reply) (codes "result"))
            (string_of j (j.json_object_get (some reply) (codes "result")) (codes "id"))
            p)
  unfolding login_named logged_in stratum_store_session_id
  login_named-LoginEnds opt_nicehash reply p no_error h =
      go (string_of j (j.json_object_get (some reply) (codes "result")) (codes "id")) refl
    where
      result : Option j.Value
      result = j.json_object_get (some reply) (codes "result")

      go :
          (id : Option Bytes)
          → string_of j (j.json_object_get (some reply) (codes "result")) (codes "id") ≡ id
          → LoginEnds opt_nicehash (login_named c opt_nicehash result id p)
      go none e = (h, inl (λ x. cc))
      go (some []) e = (h, inl (λ x. cc))
      go (some (b ∷ id)) e =
          let named =
            set_ctx
              (record (stratum_store_session_id c.one (some (b ∷ id)) p.ctx) {
                authenticated = true;
                xmr_nicehash =
                    nicehash_mode j opt_nicehash (j.json_object_get result (codes "extensions"));
              })
              p in
          let (stored, authenticated, owned) =
            first_job-same (j.json_object_get result (codes "job")) named in
          (
            first_job-SessionFits (j.json_object_get result (codes "job")) named h,
            inr (record {
              reply = reply;
              session_id = b ∷ id;
              no_error = no_error;
              named = e;
              not_empty = λ x. cc;
              stored = stored;
              authenticated = authenticated;
              pool_owns =
                  subst
                    (λ b.
                      (b ≡ true)
                      ↔ NicehashMode j opt_nicehash (j.json_object_get result (codes "extensions")))
                    (sym owned)
                    (nicehash_mode-NicehashMode j opt_nicehash
                      (j.json_object_get result (codes "extensions")));
            }),
          )

  login-LoginEnds :
      (opt_nicehash : Bool) (x : Exchange j.Value) (p : Peer D j)
      → SessionFits p.ctx
      → LoginEnds opt_nicehash (xmr_stratum_login c opt_nicehash x p)
  unfolding xmr_stratum_login
  login-LoginEnds opt_nicehash x p h =
      go (stratum_send_request_and_wait c 4 30 x p) (wait-SessionFits c 4 30 x p h)
    where
      After : Peer D j × Wait j.Value → Peer D j × Option Bool
      After (p', outcome) = elim outcome [
        | waiting ↦ (p', none)
        | failed status ↦ (p', some false)
        | answered reply ↦
            let result = j.json_object_get (some reply) (codes "result") in
            if stratum_reply_has_rpc_error j false reply
            then (p', some false)
            else login_named c opt_nicehash result (string_of j result (codes "id")) p'
      ]

      go : (y : Peer D j × Wait j.Value) → SessionFits y.0.ctx → LoginEnds opt_nicehash (After y)
      go (p', waiting) h' = (h', inl (λ x. cc))
      go (p', failed status) h' = (h', inl (λ x. cc))
      go (p', answered reply) h' = elim (Bool-cases (stratum_reply_has_rpc_error j false reply)) [
        | inl e ↦ rw e (h', inl (λ x. cc))
        | inr e ↦ rw e (login_named-LoginEnds opt_nicehash reply p' e h')
      ]

  after-SessionFits :
      (request extra : Exchange j.Value) (y : Peer D j × Option Bool)
      → SessionFits y.0.ctx
      → SessionFits (after_subscribe c request extra y).0.ctx
  unfolding after_subscribe
  after-SessionFits request extra (p, none) h = h
  after-SessionFits request extra (p, some false) h = h
  after-SessionFits request extra (p, some true) h = authorize-SessionFits c request extra p h

  -- What a connection comes to before a failed one is closed, and after.
  abbrev Ends : Bool → Peer D j × Option Bool → Type 0
  Ends opt_nicehash (p', outcome) =
      SessionFits p'.ctx
      × (is_randomx c.opt_algo ≡ true → outcome ≡ some true → LoggedIn opt_nicehash p')

  closed-Ends :
      (opt_nicehash : Bool) (y : Peer D j × Option Bool)
      → Ends opt_nicehash y
      → Ends opt_nicehash (closed c y) × ((closed c y).1 ≡ some false → Closed (closed c y).0)
  unfolding closed
  closed-Ends opt_nicehash (p, none) h = (h, λ e. absurd cc)
  closed-Ends opt_nicehash (p, some false) (fits, _) =
      ((disconnect-SessionFits c p fits, λ _ e. absurd cc), λ e. (disconnect-Dropped c p).closed)
  closed-Ends opt_nicehash (p, some true) h = (h, λ e. absurd cc)

  -- Whatever the pool sends while a connection opens, the session's buffers and its job fit afterwards as
  -- they did before. If the opening fails, no work is published, the job is gone, no share waits for a reply,
  -- and the session is neither connected nor authenticated. If it succeeds with RandomX, the session is
  -- logged in: the reply named no error and gave an id that is not empty, the session keeps this id and is
  -- authenticated, and it is in nicehash mode, where the pool sets the upper byte of the nonces, exactly if
  -- the option asks for it or the extensions in the reply name it.
  pub open_pool_connection-Opened :
      (opt_nicehash : Bool) (first second request extra : Exchange j.Value) (p : Peer D j)
      → SessionFits p.ctx
      → let (p', outcome) =
          stratum_open_pool_connection c opt_nicehash first second request extra p in
        (SessionFits p'.ctx
          × (is_randomx c.opt_algo ≡ true → outcome ≡ some true → LoggedIn opt_nicehash p'))
        × (outcome ≡ some false → Closed p')
  unfolding stratum_open_pool_connection stratum_subscribe
  open_pool_connection-Opened opt_nicehash first second request extra p h =
      closed-Ends opt_nicehash
        (if is_randomx c.opt_algo
          then xmr_stratum_login c opt_nicehash first p
          else after_subscribe c request extra (subscribe_attempts c (first ∷ second ∷ []) p))
        (if-cases {A = Peer D j × Option Bool} (Ends opt_nicehash) (is_randomx c.opt_algo)
          (λ _.
            let (fits, ends) = login-LoginEnds opt_nicehash first p h in
            (fits, λ _ e. elim ends [ inl other ↦ absurd (other e) | inr session ↦ session ]))
          (λ e. (
            after-SessionFits request extra (subscribe_attempts c (first ∷ second ∷ []) p)
                (attempts-SessionFits c (first ∷ second ∷ []) p h),
            λ e' _. cc,
          )))
