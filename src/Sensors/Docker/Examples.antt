-- ===== src/Sensors/Docker/Examples.antt =====
-- An engine with one container.
use loadbear.Prelude.{
  ℕ, ◌≡◌, refl, String, Option, none, some, List, [], ◌∷◌, ◌++◌, All, chars, if◌then◌else◌, arith,
  strip_prefix, is_some,
}
use loadbear.Float.Fixed.{Fixed, num, fixed_float, Fixed-IsOrdered, Fixed-IsCast}
use loadbear.Sensors.Docker.{list_path, read_containers, percent_of}
use loadbear.Sensors.Docker.Percent.{IsSound, read_containers-AreSound}
use loadbear.Sensors.Docker.Http.{returned, panicked, crlf, chunk_size, body}
use loadbear.Sensors.Docker.Http.Chunks.{Chunk, encode, texts, body-encode, body-panics}
use loadbear.Sensors.Docker.Json.{array_items, string, first_name, nested_u64}
use loadbear.Sensors.Docker.Json.Items.{raw, behind, Inner, done, plain, quote, object}

abbrev list_text : List ℕ
list_text = chars "[{\"Id\":\"ab12\",\"Names\": [\"/postgres\"],\"Note\":\"}\"}]"

abbrev stats_text : List ℕ
stats_text =
    chars
      "{\"cpu_stats\":{\"cpu_usage\":{\"total_usage\":500},\"system_cpu_usage\":2000},\"precpu_stats\":{\"cpu_usage\":{\"total_usage\":300},\"system_cpu_usage\":1000},\"memory_stats\":{\"usage\":77,\"limit\":0}}"

-- The answers of an engine that is asked for the list and for anything else.
abbrev answers : List ℕ → Option (List ℕ)
answers path = some (if is_some (strip_prefix list_path path) then list_text else stats_text)

abbrev named : List ℕ → String
named s = if is_some (strip_prefix (chars "ab12") s) then "ab12" else "postgres"

read_containers-answers :
    read_containers (λ (x : Fixed). x) named answers
    ≡ record {
      id = "ab12";
      name = "postgres";
      cpu_percent = num 20000 0;
      memory_bytes = 77;
      memory_limit_bytes = none;
    }
      ∷ []
unfolding read_containers array_items string first_name nested_u64 percent_of
read_containers-answers = refl

read_containers-AreSound_example :
    All IsSound (read_containers (λ (x : Fixed). x) named answers)
    × (answers list_path ≡ none → read_containers (λ (x : Fixed). x) named answers ≡ [])
read_containers-AreSound_example =
    read_containers-AreSound (λ (x : Fixed). x) Fixed-IsOrdered Fixed-IsOrdered Fixed-IsCast named
      answers

-- A string with a brace and an escaped quote.
abbrev tricky : Inner
tricky =
    quote (raw b'}' refl refl ∷ behind b'"' ∷ []) (object (plain b'1' refl refl refl done) done)

abbrev chunked_head : List ℕ
chunked_head = chars "HTTP/1.1 200 OK\r\ntransfer-encoding: chunked"

abbrev two_chunks : List Chunk
two_chunks = (chars "3", chars "abc") ∷ (chars "2;x", chars "é") ∷ []

abbrev response : List ℕ
response = chunked_head ++ (crlf ++ crlf ++ encode (chars "0") two_chunks)

body-encode_example : body (λ s. s) response ≡ returned (some (texts two_chunks))
unfolding chunk_size
body-encode_example =
    body-encode (λ s. s) chunked_head (chars "0") response two_chunks refl refl refl refl refl
      ((refl, refl, omega arith), ((refl, refl, omega arith), tt))

-- The size of the chunk ends inside its second character.
abbrev cut_response : List ℕ
cut_response = chunked_head ++ (crlf ++ crlf ++ chars "3\r\nxyz\r\n2\r\naéb\r\n0\r\n\r\n")

body-panics_example : body (λ s. s) cut_response ≡ panicked
unfolding chunk_size
body-panics_example =
    body-panics (λ s. s) chunked_head (chars "2") (chars "a") (chars "b\r\n0\r\n\r\n") cut_response
      233 ((chars "3", chars "xyz") ∷ []) refl refl refl ((refl, refl, omega arith), tt) refl
      (omega arith) (omega arith)
