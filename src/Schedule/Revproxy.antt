-- ===== src/Schedule/Revproxy.antt =====
-- revproxy.go: the backend of a websocket request, by the room that it asks for.
use vchamber.Prelude.{Option, none, some, String, if◌then◌else◌, str_eq}
use vchamber.Schedule.Storage.{Storage}

-- The fields of url.URL that the proxies set.
pub record Url : Type 0 where
  pub scheme : String
  pub host : String
  pub path : String
  pub raw_query : String
  pub fragment : String

-- url.Parse("ws://example.com:8080")
abbrev pub backend_ws_scheme : Url
backend_ws_scheme = record {
  scheme = "ws";
  host = "example.com:8080";
  path = "";
  raw_query = "";
  fragment = "";
}

-- url.Parse("http://example.com:8080")
abbrev pub backend_rest_scheme : Url
backend_rest_scheme = record {
  scheme = "http";
  host = "example.com:8080";
  path = "";
  raw_query = "";
  fragment = "";
}

module _ {S : Type 0} (store : Storage S) (query : String → String → String) where
  -- q.Get("rid"), and what the registry has for it; its error is dropped.
  unfoldable pub target_of : S → String → String
  target_of s rid = if str_eq rid "" then "" else (store.get s rid).0

  unfoldable pub proxy_backend : S → Url → Option Url
  unfolding target_of
  proxy_backend s url =
      let target = target_of s (query url.raw_query "rid") in
      if str_eq target ""
      then none
      else some (record backend_ws_scheme {
        host = target;
        fragment = url.fragment;
        path = url.path;
        raw_query = url.raw_query;
      })
