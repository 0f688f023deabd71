-- ===== src/Tests/Bodies.antt =====
-- A body that is too long to be read.
use proxmox_user_quota_proxy.Base.{ℕ, ◌≡◌, refl, ap, true, some, [], ◌∷◌, length, ltb, Text, codes}
use proxmox_user_quota_proxy.Classify.{guest_create}
use proxmox_user_quota_proxy.Body.{Body, ended, failing, reader}
use proxmox_user_quota_proxy.Audit.Restore.{read_and_restore_lem, left_with, passed_on, readable}
use proxmox_user_quota_proxy.Audit.{Payload, max_body, params, read_and_restore}
use proxmox_user_quota_proxy.Audit.Limit.{long_body_hides}
use proxmox_user_quota_proxy.Admission.Delta.{create_delta}
use proxmox_user_quota_proxy.Tests.Fixtures.{whole, decoders}

unfoldable filler : ℕ → Text
filler ℕ.zero = []
filler (ℕ.suc n) = b'&' ∷ filler n

length-filler : (n : ℕ) → length (filler n) ≡ n
unfolding filler
length-filler ℕ.zero = refl
length-filler (ℕ.suc n) = ap ℕ.suc (length-filler n)

abbrev long_body : Payload
long_body = record { content_type = []; body = some (reader (filler 300000)) }

is_long : ltb max_body (length (filler 300000)) ≡ true
is_long = ap (ltb max_body) (length-filler 300000)

long_body_hides_example :
    create_delta (codes "qemu") (params decoders long_body guest_create)
    ≡ create_delta (codes "qemu") []
long_body_hides_example =
    long_body_hides decoders (codes "qemu") long_body (reader (filler 300000)) refl is_long

-- The connection ends in the middle of a body; the next read gives io.EOF.
abbrev broken : Body
broken = failing (codes "cores=4") (codes "unexpected EOF") (ended [])

read_and_restore_lem_example :
    read_and_restore broken ≡ left_with (passed_on broken) (readable broken)
read_and_restore_lem_example = read_and_restore_lem broken
