-- ===== src/Http.antt =====
-- booking-service/internal/http: the middleware, the handlers, the mapping of errors to replies and
-- the router. What libraries do to texts (uuid.Parse, strconv.Atoi, time.Parse of a date,
-- mail.ParseAddress, the JSON decoder and the parsing of a JWT) is a parameter. A text that is parsed
-- is its bytes, and an absent header or query parameter is the empty text.
pub mod Responses
pub mod Replies
pub mod Params
pub mod Handlers
pub mod Public
pub mod Router
pub mod Checks
pub mod Invariance
pub mod Preservation
pub mod Holding
