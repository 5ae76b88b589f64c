-- ===== src/Redirector/Client.antt =====
-- `classifyClientClass` of packages/redirector-core/src/client-class.ts. The lower case of a locale is a
-- parameter.
use text.Mathlib.Text.{find?}
use open_mmp.Common.{Bool, List, [], ◌∷◌, String, any, is_some, if◌then◌else◌}
use open_mmp.Redirector.Resolve.{ClientClass, mobile_app_eligible, bot, other}

abbrev pub public_bot_tokens : List String
public_bot_tokens = "bot" ∷ "crawler" ∷ "spider" ∷ "preview" ∷ []

abbrev pub mobile_tokens : List String
mobile_tokens = "android" ∷ "iphone" ∷ "ipad" ∷ []

-- `normalized.includes(token)`, for some token.
abbrev pub includes_some : List String → String → Bool
includes_some tokens text = any (λ token. is_some (find? text token)) tokens

abbrev pub classify_client_class : (String → String) → String → ClientClass
classify_client_class to_lower user_agent =
    let normalized = to_lower user_agent in
    if includes_some public_bot_tokens normalized
    then bot
    else if includes_some mobile_tokens normalized
    then mobile_app_eligible
    else other
