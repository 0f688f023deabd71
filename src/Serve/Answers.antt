-- ===== src/Serve/Answers.antt =====
-- The answers of the proxy, and what its logs say of them.
use proxmox_user_quota_proxy.Base.{
  ◌≡◌, subst, refl, ap, ◌∙◌, ◌⊎◌, inl, inr, true, false, Option, none, some, List, All, ℤ, pos,
  leb_ℤ, Text, codes, Float64, eqb, Bool-cases,
}
use proxmox_user_quota_proxy.Audit.{Decoders}
use proxmox_user_quota_proxy.Classify.{classify}
use proxmox_user_quota_proxy.Admission.Enforcer.Decide.{Denial, Settle, settle_none}
use proxmox_user_quota_proxy.Admission.Enforcer.Handle.{
  Request, Enforcer, Answer, System, settle, handle,
}
use proxmox_user_quota_proxy.Admission.Enforcer.Handle.Gate.{status_of}
use proxmox_user_quota_proxy.Admission.Enforcer.Handle.Outcome.{
  Outcome, Forwarded, Refused, Panicked, handle-Outcome,
}
use proxmox_user_quota_proxy.Writers.{Call, AccessEntry, answered, if_unset, unset, access_entry}
use proxmox_user_quota_proxy.Writers.Recorded.{
  HasCode, first_status, first_header, taken_after, answered-Noted,
}
use proxmox_user_quota_proxy.Serve.{
  Printer, Upstream, Reply, unreachable, copied, aborted, returns, seen_status, access_of,
  http_error, proxy_calls, denial_calls, backend, calls_of, serve_http,
}

-- No call of an answer that is passed on as a whole has the code 0, which net/http does not take.
abbrev pub HasCodes : Reply → Type 0
HasCodes (copied cs) = All HasCode cs
HasCodes _ = Unit

module _ (p : Printer) where
  status_of-HasCode : (t : Text) → unset (status_of t) ≡ false
  status_of-HasCode t = elim (Bool-cases (eqb t (codes "extjs"))) [
    | inl gui ↦ rw gui
    | inr other ↦ rw other
  ]

  denial_calls-HasCode :
      (t envelope : Text) (d : Denial) → All HasCode (denial_calls p envelope (status_of t) d)
  unfolding denial_calls
  denial_calls-HasCode t envelope d = (status_of-HasCode t, (tt, tt))

  proxy_calls-HasCode :
      (reply : Reply) → returns reply ≡ true → HasCodes reply → All HasCode (proxy_calls p reply)
  unfolding proxy_calls http_error
  proxy_calls-HasCode unreachable whole h = (refl, (tt, tt))
  proxy_calls-HasCode (copied cs) whole h = h
  proxy_calls-HasCode (aborted cs) whole h = cc

  seen_status-returns :
      (reply : Reply)
      → returns reply ≡ true
      → seen_status p reply ≡ (answered (proxy_calls p reply)).status
  unfolding seen_status
  seen_status-returns unreachable whole = refl
  seen_status-returns (copied cs) whole = refl
  seen_status-returns (aborted cs) whole = cc

  seen_status-aborted :
      (reply : Reply) → returns reply ≡ false → leb_ℤ (pos 300) (seen_status p reply) ≡ true
  unfolding seen_status
  seen_status-aborted unreachable broken = cc
  seen_status-aborted (copied cs) broken = cc
  seen_status-aborted (aborted cs) broken = refl

  module _ (u : Upstream) (e : Enforcer) where
    -- The access log has the request with the first code of a header in these calls, or 200, and the
    -- bytes that were taken.
    abbrev pub LoggedAs :
        (remote upgrade : Text) → Request → List Call → Option AccessEntry → Type 0
    LoggedAs remote upgrade r cs entry =
        entry
        ≡ some (record {
          method = r.method;
          path = r.path;
          status = if_unset (first_header cs) (pos 200);
          bytes_out = taken_after (pos 0) cs;
          remote = remote;
          upgrade = upgrade;
        })

    -- The calls are those of the cluster's answer, or of the page for an error of the transport, and
    -- the proxy waited at most for an answer that begins with a status below 300.
    abbrev pub PassedOn : Request → u.State → u.State → List Call → Type 0
    PassedOn r before after cs =
        (returns (u.round_trip r before).1 ≡ true)
        × (cs ≡ proxy_calls p (u.round_trip r before).1)
        × ((st : Settle) × (after ≡ settle (backend p u) e.polls st (u.round_trip r before).0)
            × ((leb_ℤ (pos 300) (first_status cs) ≡ false) ⊎ (st ≡ settle_none)))

    -- The cluster's answer broke off: the client has the calls before that, nothing is logged, and the
    -- proxy did not wait.
    abbrev pub BrokenOff :
        Request → u.State → u.State → Option (List Call) → Option AccessEntry → Type 0
    BrokenOff r before after calls entry =
        (returns (u.round_trip r before).1 ≡ false)
        × (calls ≡ some (proxy_calls p (u.round_trip r before).1))
        × (entry ≡ none)
        × (after ≡ (u.round_trip r before).0)

    -- The calls are those of a refusal in the form of the path, and the cluster did not change.
    abbrev pub Denied : Request → u.State → u.State → List Call → Type 0
    Denied r before after cs =
        (reason : Denial) × (cs
          ≡ denial_calls p (classify r.method r.path).envelope
              (status_of (classify r.method r.path).envelope) reason)
        × (after ≡ before)

    unfoldable pub Consistent :
        (remote upgrade : Text)
        → Request
        → (before after : u.State) → Option (List Call)
        → Option AccessEntry
        → Type 0
    Consistent remote upgrade r before after calls entry =
        ((cs : List Call) × (calls ≡ some cs)
          × LoggedAs remote upgrade r cs entry
          × (PassedOn r before after cs ⊎ Denied r before after cs))
        ⊎ BrokenOff r before after calls entry
        ⊎ ((calls ≡ none) × (entry ≡ none) × (after ≡ before))

    module _ (remote upgrade : Text) (r : Request) where
      logged_as :
          (cs : List Call)
          → All HasCode cs
          → LoggedAs remote upgrade r cs (some (access_entry r.method r.path remote upgrade cs))
      logged_as cs h = ap some ((answered-Noted cs h).entry r.method r.path remote upgrade)

      no_wait :
          (st : Settle) (n : ℤ)
          → leb_ℤ (pos 300) n ≡ true
          → (leb_ℤ (pos 300) n ≡ false) ⊎ (st ≡ settle_none)
          → (c : u.State) → settle (backend p u) e.polls st c ≡ c
      unfolding settle
      no_wait st n bad (inl good) c = absurd (cc)
      no_wait st n bad (inr none_it) c = rw none_it

      Forwarded-Consistent :
          (before : u.State) (n : ℤ) (x : System (backend p u) × Answer)
          → HasCodes (u.round_trip r before).1
          → Forwarded (backend p u) e r before n x
          → Consistent remote upgrade r before x.0.cluster
              (calls_of p u r before x.1)
              (access_of p u remote upgrade r before x.1)
      unfolding calls_of access_of Consistent
      Forwarded-Consistent before n x h (st, answer, after, waits, _) =
          let reply = (u.round_trip r before).1 in
          elim (Bool-cases (returns reply)) [
            | inl whole ↦
                let cs = proxy_calls p reply in
                let hs = proxy_calls-HasCode reply whole h in
                let noted = seen_status-returns reply whole ∙ (answered-Noted cs hs).captured in
                let waited : (leb_ℤ (pos 300) (first_status cs) ≡ false) ⊎ (st ≡ settle_none) =
                  subst (λ n. (leb_ℤ (pos 300) n ≡ false) ⊎ (st ≡ settle_none)) noted waits in
                rw (answer, whole)
                  (inl (cs, refl, logged_as cs hs, inl (refl, refl, (st, after, waited))))
            | inr broken ↦
                let stays = no_wait st _ (seen_status-aborted reply broken) waits _ in
                rw (answer, broken) (inr (inl (refl, refl, refl, after ∙ stays)))
          ]

      Refused-Consistent :
          (before : u.State) (n : ℤ) (x : System (backend p u) × Answer)
          → Refused (backend p u) e (classify r.method r.path).envelope before n x
          → Consistent remote upgrade r before x.0.cluster
              (calls_of p u r before x.1)
              (access_of p u remote upgrade r before x.1)
      unfolding calls_of access_of Consistent
      Refused-Consistent before n x (reason, answer, same, _) =
          let t = (classify r.method r.path).envelope in
          let cs = denial_calls p t (status_of t) reason in
          rw answer (
            inl
              (cs, refl, logged_as cs (denial_calls-HasCode t t reason), inr (reason, refl, same)))

      Panicked-Consistent :
          (before : u.State) (n : ℤ) (x : System (backend p u) × Answer)
          → Panicked (backend p u) e before n x
          → Consistent remote upgrade r before x.0.cluster
              (calls_of p u r before x.1)
              (access_of p u remote upgrade r before x.1)
      unfolding calls_of access_of Consistent
      Panicked-Consistent before n x (answer, same, _) = rw answer (inr (inr (refl, refl, same)))

    module _ ⦃fl : Float64⦄ (dec : Decoders) where
      -- Of every request, where no call of an answer of the cluster that is passed on as a whole has the
      -- code 0, one of four holds. The client gets the calls of that answer, or a page with 502 where the
      -- transport fails, the access log has the code and the bytes of just these calls, and the proxy waits
      -- only behind an answer that begins with a status below 300. Or the client gets a refusal, logged in
      -- the same way, and the cluster stays as it was. Or the answer of the cluster breaks off: the client
      -- gets the calls up to there, the cluster is as the request left it, the proxy does not wait, and the
      -- access log has no entry. Or the handler panics at a nil record: no call, no entry, and the cluster
      -- stays as it was.
      pub serve_http-Consistent :
          (remote upgrade : Text) (r : Request) (s : System (backend p u))
          → HasCodes (u.round_trip r s.cluster).1
          → let out = serve_http p u e dec remote upgrade r s in
            Consistent remote upgrade r s.cluster out.system.cluster out.calls out.access
      unfolding serve_http Outcome
      serve_http-Consistent remote upgrade r s codes_set =
          let y = handle (backend p u) e dec r s in
          elim (handle-Outcome (backend p u) e dec r s) [
            | inl x ↦ Forwarded-Consistent remote upgrade r s.cluster s.metrics.denied y codes_set x
            | inr (inl x) ↦ Refused-Consistent remote upgrade r s.cluster s.metrics.denied y x
            | inr (inr x) ↦ Panicked-Consistent remote upgrade r s.cluster s.metrics.denied y x
          ]
