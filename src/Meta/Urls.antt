-- ===== src/Meta/Urls.antt =====
-- `TorrentMetaInfo::get_urls` of bt/src/base/meta_info.rs, over the parser of another crate.
use rust_torrent_client.Prelude.{
  List, [], ◌∷◌, ◌++◌, Option, none, some, Bool, Bytes, any, if◌then◌else◌,
}
use rust_torrent_client.Meta.{TorrentMetaInfo}

module _ {Url : Type 0} (parse_url : Bytes → Option Url) (url_eq : Url → Url → Bool) where
  abbrev keep : Option Url → List Url → List Url
  keep none urls = urls
  keep (some url) urls = url ∷ urls

  -- `filter_map`
  unfoldable pub parsed : List Bytes → List Url
  parsed [] = []
  parsed (text ∷ texts) = keep (parse_url text) (parsed texts)

  -- `flat_map`
  unfoldable pub parsed_lists : List (List Bytes) → List Url
  parsed_lists [] = []
  parsed_lists (texts ∷ lists) = parsed texts ++ parsed_lists lists

  abbrev listed : Option (List (List Bytes)) → List Url
  listed none = []
  listed (some lists) = parsed_lists lists

  abbrev announced : Option Bytes → Option Url
  announced none = none
  announced (some text) = parse_url text

  abbrev push_new : Option Url → List Url → List Url
  push_new none urls = urls
  push_new (some url) urls = if any (url_eq url) urls then urls else urls ++ url ∷ []

  unfoldable pub get_urls : TorrentMetaInfo → List Url
  get_urls t = push_new (announced t.announce) (listed t.announce_list)
