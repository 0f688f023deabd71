-- ===== src/Tests/Served.antt =====
-- The proxy before a cluster that cannot be reached, with the quota file of the user.
use proxmox_user_quota_proxy.Base.{
  ℕ, ◌≡◌, refl, true, some, List, [], ◌∷◌, ◌++◌, pos, length, codes, eqb, lookup, is_some,
}
use proxmox_user_quota_proxy.Quota.Validate.{check_users, check_user, validate}
use proxmox_user_quota_proxy.Quota.Store.{Tick, open_store, watch}
use proxmox_user_quota_proxy.Quota.Store.Reload.{tick_of}
use proxmox_user_quota_proxy.Admission.Enforcer.Handle.{Enforcer, System}
use proxmox_user_quota_proxy.Serve.{Printer, Upstream, unreachable, backend, serve_http}
use proxmox_user_quota_proxy.Serve.Admin.{usage_page}
use proxmox_user_quota_proxy.Serve.Answers.{Consistent, serve_http-Consistent}
use proxmox_user_quota_proxy.Serve.Answered.{always_answered}
use proxmox_user_quota_proxy.Tests.Fixtures.{
  whole, small_api, store, yaml, first_file, decoders, create, enforcing, zeroes,
}

abbrev printer : Printer
printer = record {
  encode = λ fields. codes "{}";
  quote = λ s. b'"' ∷ s ++ codes "\"";
  taken = λ s. pos (length s);
}

abbrev cut_off : Upstream
cut_off = record {
  State = ℕ;
  api = λ n. small_api;
  round_trip = λ r n. (ℕ.suc n, unreachable);
  sleep = λ n. n;
}

abbrev start : System (backend printer cut_off)
start = record { metrics = zeroes; cluster = 0 }

serve_http-Consistent_example :
    let out =
      serve_http printer cut_off
        (enforcing (some store))
        decoders
        (codes "10.0.0.1")
        []
        (create (codes "1"))
        start in
    Consistent printer cut_off
      (enforcing (some store))
      (codes "10.0.0.1")
      []
      (create (codes "1"))
      0
      out.system.cluster
      out.calls
      out.access
serve_http-Consistent_example =
    serve_http-Consistent printer cut_off (enforcing (some store)) decoders (codes "10.0.0.1") []
      (create (codes "1")) start tt

-- A tick at which the file is broken.
abbrev ticks : List Tick
ticks = tick_of 2 (codes "?") ∷ []

opens : open_store yaml first_file ≡ some store
unfolding open_store eqb validate check_users check_user lookup
opens = refl

abbrev enforcer : Enforcer
enforcer = enforcing (some (watch yaml store ticks))

always_answered_example :
    (is_some (serve_http printer cut_off enforcer decoders [] [] (create (codes "3")) start).calls
      ≡ true)
    × (is_some (usage_page printer (λ es. []) (some (watch yaml store ticks)) (some small_api) [])
        ≡ true)
always_answered_example =
    always_answered printer (λ es. []) cut_off enforcer decoders yaml first_file store ticks opens
      refl [] [] (create (codes "3")) start small_api []
