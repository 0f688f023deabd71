-- ===== src/Classify/Paths.antt =====
-- The two forms in which a path of the API is reached, and what the classification makes of them.
use proxmox_user_quota_proxy.Base.{◌≡◌, refl, List, ◌++◌, Text, codes, arith, to_upper}
use proxmox_user_quota_proxy.Classify.{
  Result, start, pass_or_unknown, classify_guest, classify_storage, classify_write, classify, seg,
  split_segs, split_envelope,
}

-- the result for another path and another form of it
abbrev pub relabel : Text → Text → Result → Result
relabel path envelope res = record res { path = path; envelope = envelope }

module _ (path envelope method : Text) (segs : List Text) where
  pass_or_unknown-relabel :
      (res : Result)
      → pass_or_unknown method segs (relabel path envelope res)
        ≡ relabel path envelope (pass_or_unknown method segs res)
  unfolding pass_or_unknown
  pass_or_unknown-relabel res = refl

  guest-relabel :
      (res : Result)
      → classify_guest method segs (relabel path envelope res)
        ≡ relabel path envelope (classify_guest method segs res)
  unfolding classify_guest
  guest-relabel res =
      let outer = pass_or_unknown-relabel res in
      let inner = pass_or_unknown-relabel (record res { vmid = seg segs 3 }) in ground arith

  storage-relabel :
      (res : Result)
      → classify_storage method segs (relabel path envelope res)
        ≡ relabel path envelope (classify_storage method segs res)
  unfolding classify_storage
  storage-relabel res =
      let outer = pass_or_unknown-relabel res in
      let inner = pass_or_unknown-relabel (record res { storage = seg segs 3 }) in ground arith

  write-relabel :
      (res : Result)
      → classify_write method segs (relabel path envelope res)
        ≡ relabel path envelope (classify_write method segs res)
  unfolding classify_write
  write-relabel res =
      let in_node : Result = record res { node = seg segs 1 } in
      let outer = pass_or_unknown-relabel res in
      let inner = pass_or_unknown-relabel in_node in
      let stored = storage-relabel in_node in
      let guest = guest-relabel (record in_node { guest_kind = seg segs 2 }) in ground arith

abbrev pub json_path : Text → Text
json_path rest = codes "/api2/json/" ++ rest

abbrev pub extjs_path : Text → Text
extjs_path rest = codes "/api2/extjs/" ++ rest

-- Whatever the method: a path of the API is classified alike in the form that the GUI calls and in
-- the form of the JSON clients, but for the path and the name of the form.
pub envelope_agnostic :
    (method rest : Text)
    → classify method (extjs_path rest)
      ≡ relabel (extjs_path rest) (codes "extjs") (classify method (json_path rest))
unfolding classify split_envelope
envelope_agnostic method rest =
    let write =
      write-relabel (extjs_path rest) (codes "extjs") (to_upper method) (split_segs rest)
        (start method (json_path rest) (codes "json")) in
    ground arith
