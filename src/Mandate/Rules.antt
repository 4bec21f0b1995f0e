-- ===== src/Mandate/Rules.antt =====
-- The rules of a mandate: its states, the life of an upload link, the names and the first bytes of a
-- file, and what a log shows of an address (src/domain/mandate.ts).
pub mod Laws
use hpx_eigen_s1_foundation.Common.{
  ℕ, suc, ◌+◌, ◌*◌, ◌-◌, Bool, true, false, not, ◌&&◌, ◌||◌, Option, none, some, List, [], ◌∷◌,
  ◌++◌, Text, codes, text_eq, is_empty, last_units, length, take, drop, leb, ◌==◌, if◌then◌else◌,
  some_of, map,
}
use hpx_eigen_s1_foundation.Store.{
  MandateRequestStatus, pending_upload, uploaded, verified, rejected, expired, superseded,
}

abbrev pub token_expiry_days : ℕ
token_expiry_days = 7

unfoldable pub token_expiry : ℕ → ℕ
token_expiry from_ms = from_ms + token_expiry_days * 24 * 60 * 60000

unfoldable pub is_token_expired : ℕ → ℕ → Bool
is_token_expired now expires_at = leb expires_at now

-- `[\x00/\\:*?"<>|]`
unfoldable pub is_reserved : ℕ → Bool
is_reserved c =
    c == 0
    || c == b'/'
    || c == b'\\'
    || c == b':'
    || c == b'*'
    || c == b'?'
    || c == 34
    || c == b'<'
    || c == b'>'
    || c == b'|'

unfoldable pub mask_reserved : ℕ → ℕ
mask_reserved c = if is_reserved c then b'_' else c

-- `.replace(/\.{2,}/g, '.')`: each run of dots becomes one; `after_dot` says that the last unit
-- read was a dot.
unfoldable pub squeeze_dots : Bool → Text → Text
squeeze_dots after_dot [] = []
squeeze_dots after_dot (c ∷ s) =
    let on = squeeze_dots true s in
    let off = squeeze_dots false s in
    if c == b'.' then (if after_dot then on else c ∷ on) else c ∷ off

unfoldable pub sanitize_file_name : Text → Text
sanitize_file_name name = take 255 (squeeze_dots false (map mask_reserved name))

-- The template `${area}/${tenantId}/${owner}/${uploadId}/${sanitizeFileName(fileName)}` of the three
-- storage keys; here the identifiers are texts.
unfoldable pub storage_key : Text → Text → Text → Text → Text → Text
unfolding sanitize_file_name
storage_key area tenant_id owner upload_id file_name =
    area
    ++ b'/'
      ∷ (tenant_id ++ b'/' ∷ (owner ++ b'/' ∷ (upload_id ++ b'/' ∷ sanitize_file_name file_name)))

unfoldable pub mandate_staging_key : Text → Text → Text → Text → Text
unfolding storage_key
mandate_staging_key tenant_id request_id upload_id file_name =
    storage_key (codes "mandate-staging") tenant_id request_id upload_id file_name

unfoldable pub mandate_final_key : Text → Text → Text → Text → Text
unfolding storage_key
mandate_final_key tenant_id request_id upload_id file_name =
    storage_key (codes "mandate-uploads") tenant_id request_id upload_id file_name

unfoldable pub mandate_firm_staging_key : Text → Text → Text → Text → Text
unfolding storage_key
mandate_firm_staging_key tenant_id case_id upload_id file_name =
    storage_key (codes "mandate-firm-staging") tenant_id case_id upload_id file_name

unfoldable pub is_allowed_content_type : Text → Bool
is_allowed_content_type kind =
    some_of (text_eq kind) (codes "application/pdf" ∷ codes "image/jpeg" ∷ codes "image/png" ∷ [])

-- The bytes that a buffer begins with.
unfoldable pub begins_with : List ℕ → List ℕ → Bool
begins_with [] bytes = true
begins_with (m ∷ magic) [] = false
begins_with (m ∷ magic) (b ∷ bytes) = b == m && begins_with magic bytes

unfoldable pub matches_magic_bytes : Text → List ℕ → Bool
unfolding begins_with
matches_magic_bytes kind bytes =
    if text_eq kind (codes "application/pdf")
    then begins_with (0x25 ∷ 0x50 ∷ 0x44 ∷ 0x46 ∷ 0x2d ∷ []) bytes
    else if text_eq kind (codes "image/jpeg")
    then begins_with (0xff ∷ 0xd8 ∷ 0xff ∷ []) bytes
    else if text_eq kind (codes "image/png")
    then begins_with (0x89 ∷ 0x50 ∷ 0x4e ∷ 0x47 ∷ []) bytes
    else false

unfoldable pub mask_phone : Text → Text
mask_phone phone = if leb (length phone) 4 then codes "****" else codes "****" ++ last_units 4 phone

-- `VALID_TRANSITIONS[from]`
abbrev pub valid_transitions : MandateRequestStatus → List MandateRequestStatus
valid_transitions pending_upload = uploaded ∷ expired ∷ superseded ∷ []
valid_transitions uploaded = verified ∷ MandateRequestStatus.rejected ∷ superseded ∷ []
valid_transitions verified = []
valid_transitions MandateRequestStatus.rejected = superseded ∷ []
valid_transitions expired = superseded ∷ []
valid_transitions superseded = []

abbrev mandate_index : MandateRequestStatus → ℕ
mandate_index pending_upload = 0
mandate_index uploaded = 1
mandate_index verified = 2
mandate_index MandateRequestStatus.rejected = 3
mandate_index expired = 4
mandate_index superseded = 5

abbrev pub is_mandate_status : MandateRequestStatus → MandateRequestStatus → Bool
is_mandate_status a b = mandate_index a == mandate_index b

unfoldable pub can_transition_mandate : MandateRequestStatus → MandateRequestStatus → Bool
can_transition_mandate from_status to_status =
    some_of (is_mandate_status to_status) (valid_transitions from_status)
