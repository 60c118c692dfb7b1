-- ===== src/Api.antt =====
-- The handlers of pkg/api/update, pkg/api/apply, pkg/api/check and pkg/api/download: which images a
-- request names, how a request waits for the lock, and what it is answered. The encoding of the
-- answers as JSON, with times, is left out.
use aether_supervisor.Prelude.{
  Text, codes, split, Bool, true, false, Option, none, some, List, [], ◌∷◌, ◌++◌, ℕ, length,
}
use aether_supervisor.Metrics.{Metric}

-- The parts between the commas of the values of `image`, where the query has any.
abbrev split_all : List Text → List Text
split_all [] = []
split_all (value ∷ values) = split value b',' ++ split_all values

unfoldable pub query_images : Option (List Text) → List Text
query_images none = []
query_images (some image_queries) = split_all image_queries

pub record ServiceUpdate : Type 0 where
  pub name : Text
  pub image : Text
  pub current_digest : Text
  pub upstream_digest : Text

pub record CheckResult : Type 0 where
  pub scanned : ℕ
  pub updatable : ℕ
  pub failed : ℕ
  pub services : List ServiceUpdate

pub record DownloadResult : Type 0 where
  pub requested : ℕ
  pub downloaded : ℕ
  pub failed : ℕ

-- http.Error; status 429 with the header Retry-After; status 200 with a summary; and no answer,
-- where the handler panics.
pub data Answer : Type 0 where
  http_error : ℕ → Text → Answer
  busy : Text → Answer
  summary : Metric → Answer
  checked : CheckResult → Answer
  downloaded : DownloadResult → Answer
  panicked : Answer

-- What a handler's function does: it is nil, returns an error, or a pointer.
pub data Called (R : Type 0) : Type 0 where
  absent : Called R
  failed : Called R
  result : Option R → Called R

-- A nil metric is read, which panics.
unfoldable pub update_answer : Option Metric → Answer
update_answer none = panicked
update_answer (some metric) = summary metric

unfoldable pub apply_answer : Option Metric → Answer
apply_answer none = panicked
apply_answer (some metric) = summary metric

unfoldable pub check_answer : Called CheckResult → Answer
check_answer absent = http_error 501 (codes "check operation is not implemented")
check_answer failed = http_error 500 (codes "Failed to execute check")
check_answer (result none) =
    checked (record { scanned = 0; updatable = 0; failed = 0; services = [] })
check_answer (result (some r)) = checked r

unfoldable pub download_answer : List Text → Called DownloadResult → Answer
download_answer images absent = http_error 501 (codes "download operation is not implemented")
download_answer images failed = http_error 500 (codes "Failed to execute download")
download_answer images (result none) =
    downloaded (record { requested = length images; downloaded = 0; failed = 0 })
download_answer images (result (some r)) = downloaded r

-- What the environment does next with a goroutine: it looks at the lock's channel, its context is
-- done, or its timer fires.
pub data Signal : Type 0 where
  look : Signal
  done : Signal
  timer : Signal

-- How a request gets on at the lock: it is answered, has received a value, or waits.
pub data Entry : Type 0 where
  refused : Answer → Entry
  entered : Bool → Entry
  blocked : Entry

-- With images a request waits for the lock or for the end of its context; without, it does not.
abbrev pub acquire : Text → List Text → Option Bool → Signal → Entry
acquire name images (some chan_value) look = entered chan_value
acquire name [] none look = refused (busy (codes "another " ++ name ++ codes " is already running"))
acquire name (_ ∷ _) none look = blocked
acquire name (_ ∷ _) lock done = refused (http_error 503 (codes "request cancelled"))
acquire name [] lock done = blocked
acquire name images lock timer = blocked

-- The Boolean says whether the request's body could be read.
abbrev pub enter : Text → Bool → List Text → Option Bool → Signal → Entry
enter name false images lock signal = refused (http_error 500 (codes "Failed to read request body"))
enter name true images lock signal = acquire name images lock signal

unfoldable pub enter_update : Bool → List Text → Option Bool → Signal → Entry
enter_update = enter (codes "update")

unfoldable pub enter_apply : Bool → List Text → Option Bool → Signal → Entry
enter_apply = enter (codes "apply")

unfoldable pub enter_check : Bool → List Text → Option Bool → Signal → Entry
enter_check = enter (codes "check")

unfoldable pub enter_download : Bool → List Text → Option Bool → Signal → Entry
enter_download = enter (codes "download")
