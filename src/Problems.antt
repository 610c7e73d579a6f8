-- ===== src/Problems.antt =====
-- backend/src/common/filters/all-exceptions.filter.ts: what an exception is answered with. Node's
-- titles of the status codes are a parameter; the log line is left out.
pub mod Slugs
use flow_pay.Prelude.{
  ℕ, Bool, true, false, ◌&&◌, ◌||◌, Option, none, some, List, [], ◌∷◌, ◌++◌, leb, nat_beq,
  if◌then◌else◌,
}
use flow_pay.Prelude.Text.{Text, to_lower}

-- `exception.getResponse().message`
pub data ErrorMessage : Type 0 where
  one : Text → ErrorMessage
  several : List Text → ErrorMessage
  no_message : ErrorMessage

-- `exception.getResponse()`
pub data ExceptionResponse : Type 0 where
  plain : Text → ExceptionResponse
  object : ErrorMessage → ExceptionResponse

-- Nest's `HttpException`, and whatever else may be thrown.
pub record HttpException : Type 0 where
  pub status : ℕ
  pub response : ExceptionResponse
  pub message : Text

pub record Problem : Type 0 where
  -- the last segment of `type`
  pub slug : Text
  pub title : Text
  pub status : ℕ
  pub detail : Text
  pub instance_url : Text
  pub request_id : Option Text

abbrev pub is_word_char : ℕ → Bool
is_word_char c = (leb b'a' c && leb c b'z') || (leb b'0' c && leb c b'9')

-- `replace(/[^a-z0-9]+/g, '-')`; the flag says that the match has begun.
abbrev pub collapse : Bool → Text → Text
collapse in_run [] = []
collapse in_run (c ∷ s) =
    if is_word_char c
    then c ∷ collapse false s
    else (if in_run then collapse true s else (b'-' ∷ collapse true s))

-- `replace(/(^-|-$)/g, '')`: the dash at the start, and the one at the end
abbrev pub drop_first : Text → Text
drop_first [] = []
drop_first (c ∷ s) = if nat_beq c b'-' then s else c ∷ s

abbrev pub drop_last : Text → Text
drop_last [] = []
drop_last (c ∷ []) = if nat_beq c b'-' then [] else c ∷ []
drop_last (c ∷ d ∷ s) = c ∷ drop_last (d ∷ s)

unfoldable pub slugify : Text → Text
slugify text = drop_last (drop_first (collapse false (to_lower text)))

-- `message.join('; ')`
abbrev pub join_details : List Text → Text
join_details [] = []
join_details (t ∷ []) = t
join_details (t ∷ u ∷ rest) = t ++ (b';' ∷ b' ' ∷ join_details (u ∷ rest))

abbrev pub extract_detail : ExceptionResponse → Text → Text
extract_detail (plain text) fallback = text
extract_detail (object (one text)) fallback = text
extract_detail (object (several texts)) fallback = join_details texts
extract_detail (object no_message) fallback = fallback

-- `Internal server error`
abbrev pub internal_detail : Text
internal_detail =
    73 ∷ 110 ∷ 116 ∷ 101 ∷ 114 ∷ 110 ∷ 97 ∷ 108 ∷ 32 ∷ 115 ∷ 101 ∷ 114 ∷ 118 ∷ 101 ∷ 114 ∷ 32 ∷ 101
    ∷ 114 ∷ 114 ∷ 111 ∷ 114 ∷ []

-- `Error`
abbrev pub default_title : Text
default_title = 69 ∷ 114 ∷ 114 ∷ 111 ∷ 114 ∷ []

abbrev pub status_of : Option HttpException → ℕ
status_of none = 500
status_of (some e) = e.status

abbrev pub detail_of : Option HttpException → Text
detail_of none = internal_detail
detail_of (some e) = extract_detail e.response e.message

abbrev pub title_of : (ℕ → Option Text) → ℕ → Text
title_of titles status = elim (titles status) [ none ↦ default_title | some title ↦ title ]

-- The body of the answer; `none` is an exception that is no `HttpException`.
unfoldable pub catch : (ℕ → Option Text) → Option HttpException → Text → Option Text → Problem
catch titles exception url request_id =
    let status = status_of exception in
    let title = title_of titles status in
    record {
      slug = slugify title;
      title = title;
      status = status;
      detail = detail_of exception;
      instance_url = url;
      request_id = request_id;
    }
