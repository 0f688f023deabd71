-- ===== src/Audit/Limit.antt =====
-- The limit on the length of a body, and what it hides.
use proxmox_user_quota_proxy.Base.{
  ◌≡◌, refl, ap, ◌∙◌, true, none, some, [], length, ltb, Bool, false, if◌then◌else◌, Option, Text,
  Float64,
}
use proxmox_user_quota_proxy.Classify.{Action, guest_create}
use proxmox_user_quota_proxy.Body.{Body, ended, failing, bytes_of}
use proxmox_user_quota_proxy.Audit.Restore.{readable, passed_on, left_with, read_and_restore_lem}
use proxmox_user_quota_proxy.Audit.{
  Decoders, Payload, max_body, should_parse_body, buffered_of, parse_buffered, params,
}
use proxmox_user_quota_proxy.Admission.Delta.{create_delta}

long_unread : (b : Body) → ltb max_body (length (bytes_of b)) ≡ true → readable b ≡ none
unfolding readable
long_unread (ended s) long = rw long
long_unread (failing s error after) long = refl

long_unbuffered :
    (o : Option Body) (b : Body)
    → o ≡ some b
    → ltb max_body (length (bytes_of b)) ≡ true
    → buffered_of o ≡ none
long_unbuffered o b is_body long =
    ap buffered_of is_body
    ∙ ap (λ r. r.buffered) (read_and_restore_lem b)
    ∙ ap (λ o. (left_with (passed_on b) o).buffered) (long_unread b long)

module _ ⦃fl : Float64⦄ (dec : Decoders) where
  unbuffered :
      (parses : Bool) (ct : Text) (o : Option Text)
      → o ≡ none
      → (if parses then parse_buffered dec ct o else []) ≡ []
  unbuffered true ct o e = ap (parse_buffered dec ct) e
  unbuffered false ct o e = refl

  long_no_params :
      (p : Payload) (b : Body) (a : Action)
      → p.body ≡ some b
      → ltb max_body (length (bytes_of b)) ≡ true
      → params dec p a ≡ []
  unfolding params
  long_no_params p b a is_body long =
      unbuffered (should_parse_body p a) p.content_type (buffered_of p.body)
        (long_unbuffered p.body b is_body long)

  -- The creation of a guest with a body of more than 256 KiB counts as one that names no parameter,
  -- whatever the body asks for.
  pub long_body_hides :
      (kind : Text) (p : Payload) (b : Body)
      → p.body ≡ some b
      → ltb max_body (length (bytes_of b)) ≡ true
      → create_delta kind (params dec p guest_create) ≡ create_delta kind []
  long_body_hides kind p b is_body long =
      ap (create_delta kind) (long_no_params p b guest_create is_body long)
