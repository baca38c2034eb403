-- ===== src/Tests/Client.antt =====
-- Runs of the registry client.
use edge_delta_lab.Prelude.{
  ◌+◌, ◌*◌, ◌≤◌, refl, ap, ◌∙◌, sym, true, false, List, [], ◌∷◌, All, ok, ok-inv, err, length,
  str_eq, eq_iff, eq_refl,
}
use edge_delta_lab.Prelude.Int.{pos}
use edge_delta_lab.Registry.Client.Base.{Url, Request, Reply, Hop, redirect, answer, Net, Client}
use edge_delta_lab.Registry.Client.Calls.{tags}
use edge_delta_lab.Registry.Client.Confined.{IsSound, IsConfined}
use edge_delta_lab.Registry.Client.Pages.{
  ping_call, tags_call, blob_call, run_calls, new_session, tags_lem, run_calls_lem,
}

abbrev registry : Url
registry = record { scheme = "https"; host = "registry"; has_user = false; rest = "" }

abbrev elsewhere : Url
elsewhere = record { scheme = "http"; host = "elsewhere"; has_user = false; rest = "" }

abbrev refused : Reply
refused = record {
  status = 401;
  challenge = "Bearer realm=x";
  digest = "";
  content_type = "";
  body = ok [];
}

-- A registry that asks for a token, and then sends the client elsewhere.
abbrev hop : List Request → Request → Hop
hop [] req = answer refused
hop (r ∷ rs) req = redirect elsewhere

abbrev net : Net
net = record {
  hop = hop;
  now = λ log. pos 0;
  extend = λ u path. ok u;
  parse_url = λ s. ok registry;
  with_query = λ u q. u;
  encode = λ q. "n=1";
  print = λ n. "1";
  fold_eq = str_eq;
  to_lower = λ s. s;
  trim_space = λ s. s;
  decode_token = λ b. err "no token";
  decode_tags = λ b. ok ("a" ∷ []);
  sha256 = λ b. "";
}

net-IsSound : IsSound net
net-IsSound = record {
  fold_refl = λ a. eq_refl a;
  fold_trans = λ a b c h k. (eq_iff a c).1 ((eq_iff a b).0 h ∙ (eq_iff b c).0 k);
  extend_origin =
      λ b u path h. let e = ok-inv h in (ap (λ x. x.scheme) (sym e), ap (λ x. x.host) (sym e));
  query_scheme = λ u q. refl;
}

abbrev client : Client
client = record { base = registry; has_credentials = true; limit = pos 1 }

tags_lem_example : length (tags net client "app" new_session).0.log ≤ 0 + 30 * 10001
tags_lem_example = tags_lem net net-IsSound client "app" new_session

run_calls_lem_example :
    All
      (IsConfined net registry)
      (run_calls net client
        (ping_call ∷ tags_call "app" ∷ blob_call "app" "sha256:0" ∷ [])
        new_session).log
run_calls_lem_example =
    run_calls_lem net net-IsSound client
      (ping_call ∷ tags_call "app" ∷ blob_call "app" "sha256:0" ∷ [])
