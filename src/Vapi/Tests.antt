-- ===== src/Vapi/Tests.antt =====
-- A number as it is typed.
use ctf_website.Samples.{plain_digests}
use ctf_website.Vapi.Verify.Sound.{IsVerified, verify_webhook-IsVerified}
use ctf_website.Crypto.{timing_safe_equal}
use ctf_website.Vapi.Verify.{WebhookSecrets, WebhookHeaders, verify_webhook, presented_secrets}
use ctf_website.Base.{refl, some, none}
use ctf_website.Base.Texts.{trim, trim_start, trim_end, is_space, remove, starts_with}
use ctf_website.Vapi.Phone.{to_e164, IsE164, to_e164-IsE164}

to_e164-IsE164_example : IsE164 "+27821234567"
unfolding to_e164 trim trim_start trim_end is_space remove starts_with
to_e164-IsE164_example = to_e164-IsE164 " 082 123 4567 " "+27821234567" refl

abbrev keyed : WebhookSecrets
keyed = record { webhook_secret = some "shhh"; hmac_secret = some "key" }

abbrev signed_headers : WebhookHeaders
signed_headers = record {
  vapi_secret = some "shhh";
  authorization = none;
  vapi_signature = some "sha256={}";
}

verify_webhook-IsVerified_example : IsVerified plain_digests keyed signed_headers "{}"
unfolding verify_webhook presented_secrets timing_safe_equal starts_with trim
verify_webhook-IsVerified_example =
    verify_webhook-IsVerified plain_digests keyed signed_headers "{}" refl
