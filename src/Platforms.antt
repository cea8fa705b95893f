-- ===== src/Platforms.antt =====
-- traffic_platform of app/crawlers/platforms/source_catalog.py and the use of
-- normalize_media_name (app/crawlers/platforms/registry.py), whose table of aliases is a parameter.
pub mod Sources
use text.Mathlib.Text.{starts_with}
use creator_engagement_proje.Base.{
  String, ◌||◌, Option, [], ◌∷◌, if◌then◌else◌, ◌==◌, string_key, contains,
}

-- normalize_media_name; `none` where it raises ValueError.
abbrev pub Normalize : Type 0
Normalize = String → Option String

unfoldable pub traffic_platform : String → String
traffic_platform platform =
    if platform == "sina_finance" || starts_with platform "sina_"
    then "sina"
    else if contains
        ("caifuhao" ∷ "guba" ∷ "hafoo" ∷ "fund1234567" ∷ "eastmoney_news" ∷ "choice_data"
          ∷ "choice_wealth" ∷ [])
        platform
    then "eastmoney"
    else if platform == "sohu_news"
    then "sohu"
    else if platform == "netease_video"
    then "netease"
    else if platform == "chejiahao"
    then "autohome"
    else if platform == "ifeng_dafeng"
    then "ifeng"
    else platform
