-- ===== src/Classify/Relevant.antt =====
-- Which requests the classification holds to be relevant for a quota.
use proxmox_user_quota_proxy.Base.{
  ◌≡◌, refl, Bool, true, false, List, Bool-cases, inl, inr, Text, arith, to_upper,
}
use proxmox_user_quota_proxy.Classify.{
  Action, read, passthrough, unknown_write, Result, start, pass_or_unknown, known_passthrough,
  classify_guest, classify_storage, classify_write, classify, split_segs, split_envelope, seg,
}

-- The actions that use resources, or that move guests between pools.
abbrev pub is_quota_action : Action → Bool
is_quota_action read = false
is_quota_action passthrough = false
is_quota_action unknown_write = false
is_quota_action _ = true

unfoldable Agrees : Result → Type 0
Agrees r = r.quota_relevant ≡ is_quota_action r.action

pass_or_unknown-Agrees :
    (method : Text) (segs : List Text) (res : Result)
    → res.quota_relevant ≡ false
    → Agrees (pass_or_unknown method segs res)
unfolding Agrees pass_or_unknown
pass_or_unknown-Agrees method segs res irrelevant =
    elim (Bool-cases (known_passthrough method segs)) [
      | inl known ↦ rw known irrelevant
      | inr unknown ↦ rw unknown irrelevant
    ]

guest-Agrees :
    (method : Text) (segs : List Text) (res : Result)
    → res.quota_relevant ≡ false
    → Agrees (classify_guest method segs res)
unfolding classify_guest Agrees
guest-Agrees method segs res irrelevant =
    let outer = pass_or_unknown-Agrees method segs res irrelevant in
    let inner = pass_or_unknown-Agrees method segs (record res { vmid = seg segs 3 }) irrelevant in
    ground arith

storage-Agrees :
    (method : Text) (segs : List Text) (res : Result)
    → res.quota_relevant ≡ false
    → Agrees (classify_storage method segs res)
unfolding classify_storage Agrees
storage-Agrees method segs res irrelevant =
    let outer = pass_or_unknown-Agrees method segs res irrelevant in
    let inner =
      pass_or_unknown-Agrees method segs (record res { storage = seg segs 3 }) irrelevant in
    ground arith

write-Agrees :
    (method : Text) (segs : List Text) (res : Result)
    → res.quota_relevant ≡ false
    → Agrees (classify_write method segs res)
unfolding classify_write Agrees
write-Agrees method segs res irrelevant =
    let in_node : Result = record res { node = seg segs 1 } in
    let outer = pass_or_unknown-Agrees method segs res irrelevant in
    let inner = pass_or_unknown-Agrees method segs in_node irrelevant in
    let stored = storage-Agrees method segs in_node irrelevant in
    let guest = guest-Agrees method segs (record in_node { guest_kind = seg segs 2 }) irrelevant in
    ground arith

-- Whatever the method and the path: the request is marked as relevant for a quota exactly if its
-- action is one that uses resources or edits a pool.
pub classify-relevant :
    (method path : Text)
    → (classify method path).quota_relevant ≡ is_quota_action (classify method path).action
unfolding classify Agrees
classify-relevant method path =
    let write =
      write-Agrees (to_upper method) (split_segs (split_envelope path).1)
        (start method path (split_envelope path).0) refl in
    ground arith
