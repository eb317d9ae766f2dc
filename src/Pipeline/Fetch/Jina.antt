-- ===== src/Pipeline/Fetch/Jina.antt =====
-- Which answers of the reader count against the provider.
use email_extractor.Common.{Bool, true, false, not, ◌&&◌, ◌||◌, ◌==◌}
use email_extractor.Pipeline.Fetch.{Body, no_object, data_of, Reply, is_success, is_server_error}

-- A body that is an object with a page in it, or JSON that is no object, which the code takes for an error
-- of its own.
abbrev pub has_data : Body → Bool
has_data (data_of d) = true
has_data no_object = true
has_data _ = false

-- The answers that say something about the reader: a bad key or an empty balance, a server error, and
-- a success without a page, unless its body is JSON that is no object.
abbrev pub is_provider_trouble : Reply → Bool
is_provider_trouble reply =
    reply.status == 401
    || reply.status == 402
    || is_server_error reply.status
    || (is_success reply.status && not (has_data reply.body))
