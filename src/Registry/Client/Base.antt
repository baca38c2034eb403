-- ===== src/Registry/Client/Base.antt =====
-- The state of the registry client of internal/registry/client.go, and what it takes from the network.
use edge_delta_lab.Prelude.{ℕ, String, Bool, Option, List, Result, ok, err}
use edge_delta_lab.Prelude.Int.{ℤ}
use edge_delta_lab.Prelude.Dict.{Dict}

-- `url.URL`, with the path and the query in `rest`
pub record Url : Type 0 where
  pub scheme : String
  pub host : String
  pub has_user : Bool
  pub rest : String

pub data Authorization : Type 0 where
  anonymous : Authorization
  basic : Authorization
  bearer : String → Authorization

pub record Request : Type 0 where
  pub url : Url
  pub accept : Option String
  pub authorization : Authorization

pub record Reply : Type 0 where
  pub status : ℕ
  pub challenge : String
  pub digest : String
  pub content_type : String
  pub body : Result (List ℕ)

pub data Hop : Type 0 where
  lost : String → Hop
  redirect : Url → Hop
  answer : Reply → Hop

-- The body of a token response
pub record TokenReply : Type 0 where
  pub token : String
  pub access_token : String
  pub expires_in : ℤ

pub record Net : Type 0 where
  -- the answer to a request, with the requests before it, the last one first
  pub hop : List Request → Request → Hop
  pub now : List Request → ℤ
  pub extend : Url → String → Result Url
  pub parse_url : String → Result Url
  pub with_query : Url → List (String × String) → Url
  pub encode : List (String × String) → String
  pub print : ℤ → String
  pub fold_eq : String → String → Bool
  pub to_lower : String → String
  pub trim_space : String → String
  pub decode_token : List ℕ → Result TokenReply
  pub decode_tags : List ℕ → Result (List String)
  pub sha256 : List ℕ → String

pub record TokenEntry : Type 0 where
  pub token : String
  pub expires_at : ℤ

-- `Client`: the part that does not change
pub record Client : Type 0 where
  pub base : Url
  pub has_credentials : Bool
  pub limit : ℤ

-- The part that does, and the requests that were sent
pub record Session : Type 0 where
  pub tok : Dict TokenEntry
  pub log : List Request

abbrev pub Run : Type 0 → Type 0
Run A = Session → Session × Result A

unfoldable pub go_on : {A B : Type 0} → Session × Result A → (A → Run B) → Session × Result B
go_on (s, err e) next = (s, err e)
go_on (s, ok a) next = next a s

infixl 5 ◌>>=◌
unfoldable pub ◌>>=◌ : {A B : Type 0} → Run A → (A → Run B) → Run B
unfolding go_on
(m >>= next) s = go_on (m s) next

abbrev pub give : {A : Type 0} → Result A → Run A
give r s = (s, r)
