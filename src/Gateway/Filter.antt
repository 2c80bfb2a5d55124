-- ===== src/Gateway/Filter.antt =====
-- common/all-exceptions.filter.ts, the same in every service: the answer to what a controller throws.
use hotdrop_orchestration.Base.{ℕ, String, Bool, Option, none, some, List, leb}

pub data Message : Type 0 where
  one_text : String → Message
  many_texts : List String → Message

-- The payload of an HttpException: a text, or an object.
pub data Payload : Type 0 where
  plain : String → Payload
  fields : Option String → Option Message → Payload

pub record HttpError : Type 0 where
  pub status : ℕ
  pub name : String
  pub response : Payload
  pub message : String

-- What is thrown: an HttpException, or anything else.
pub data Thrown (Unknown : Type 0) : Type 0 where
  http_error : HttpError → Thrown Unknown
  unknown_error : Unknown → Thrown Unknown

pub record Normalized : Type 0 where
  pub status_code : ℕ
  pub error : String
  pub message : Message

pub record ErrorBody : Type 0 where
  pub status_code : ℕ
  pub error : String
  pub message : Message
  pub path : String
  pub timestamp : ℕ

-- What the filter does: the status of the response, its body, and whether the error is logged.
pub record Answer : Type 0 where
  pub status : ℕ
  pub body : ErrorBody
  pub is_logged : Bool

unfoldable pub error_or : Option String → String → String
error_or none name = name
error_or (some text) name = text

unfoldable pub message_or : Option Message → String → Message
message_or none text = Message.one_text text
message_or (some message) text = message

unfoldable pub normalize_http : HttpError → Payload → Normalized
unfolding error_or message_or
normalize_http e (Payload.plain text) = record {
  status_code = e.status;
  error = e.name;
  message = Message.one_text text;
}
normalize_http e (Payload.fields error message) = record {
  status_code = e.status;
  error = error_or error e.name;
  message = message_or message e.message;
}

module _ {Unknown : Type 0} where
  unfoldable pub normalize : Thrown Unknown → Normalized
  unfolding normalize_http
  normalize (Thrown.http_error e) = normalize_http e e.response
  normalize (Thrown.unknown_error x) = record {
    status_code = 500;
    error = "InternalServerError";
    message = Message.one_text "Internal server error";
  }

  -- catch, at a path and a time.
  unfoldable pub catch_all : Thrown Unknown → String → ℕ → Answer
  unfolding normalize
  catch_all exception url now =
      let n = normalize exception in
      record {
        status = n.status_code;
        body = record {
          status_code = n.status_code;
          error = n.error;
          message = n.message;
          path = url;
          timestamp = now;
        };
        is_logged = leb 500 n.status_code;
      }
