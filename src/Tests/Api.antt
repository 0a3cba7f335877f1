-- ===== src/Tests/Api.antt =====
-- An answer with one chunk within the budget, and the labels that are found in a text.
use repomesh.Prelude.{ℕ, ◌≡◌, refl, Bool, false, ◌&&◌, leb, none, some, [], ◌∷◌, inl, inr, arith}
use repomesh.Api.Answer.{Found, find_labels, answer}
use repomesh.Api.Evidence.{IsGrounded, answer-IsGrounded}
use repomesh.Api.Routes.{App, Headers, Service, Request, registers}
use repomesh.Api.Wait.{Reading, Returns, wait, wait-Returns}
use repomesh.Tests.Coordination.{settings, opened, job_10, job_10_there}
use repomesh.Tests.Discovery.{root, host}

abbrev is_digit : ℕ → Bool
is_digit c = leb b'0' c && leb c b'9'

abbrev result : Found
result = record {
  chunk_id = b'i' ∷ [];
  file_path = b'f' ∷ [];
  start_line = 1;
  end_line = 2;
  content = b'a' ∷ b'b' ∷ [];
}

-- The text [[f:1-2] [g:3] is searched: one label is found, from the first bracket on.
finds_one :
    find_labels is_digit 0 (
      b'[' ∷ b'[' ∷ b'f' ∷ b':' ∷ b'1' ∷ b'-' ∷ b'2' ∷ b']' ∷ 32 ∷ b'[' ∷ b'g' ∷ b':' ∷ b'3' ∷ b']'
      ∷ [])
    ≡ (b'[' ∷ b'[' ∷ b'f' ∷ b':' ∷ b'1' ∷ b'-' ∷ b'2' ∷ b']' ∷ []) ∷ []
unfolding find_labels
finds_one = refl

answer-IsGrounded_example :
    IsGrounded is_digit
      (λ found. b'y' ∷ [])
      3
      (result ∷ result ∷ [])
      (answer is_digit (λ found. b'y' ∷ []) 3 (result ∷ result ∷ []))
answer-IsGrounded_example = answer-IsGrounded is_digit (λ found. b'y' ∷ []) 3 (result ∷ result ∷ [])

abbrev app : App
app = record {
  settings = settings;
  api_token = b't' ∷ [];
  host = host;
  roots = root ∷ [];
  number = λ t. 1;
}

abbrev token_headers : Headers
token_headers = record { authorization = none; x_api_token = some app.api_token }

abbrev service : Service
service = record {
  index = record {
    repositories = [];
    keys = [];
    files = λ r p. none;
    chunks = [];
    pending = λ r p. false;
  };
  db = opened.db;
}

-- PostgreSQL stops answering after the row of a new repository is committed.
abbrev registering : Request
registering = registers (b'/' ∷ b'r' ∷ []) none none

abbrev early : Reading
early = record { db = opened.db; now = 6 }

abbrev late : Reading
late = record { db = opened.db; now = 9 }

wait-Returns_example : Returns 8 10 (early ∷ late ∷ []) (wait 8 10 (early ∷ late ∷ []))
wait-Returns_example =
    wait-Returns 8 10 (early ∷ late ∷ []) late
      (
        record { job = job_10; found = job_10_there },
        (record { job = job_10; found = job_10_there }, tt),
      )
      (inr (inl refl)) (omega arith)
