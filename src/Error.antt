-- ===== src/Error.antt =====
-- zeroraft/src/error.rs: the errors of the crate. The texts are the renderings that the source's
-- `From` instances keep of a channel's and of a store's error.
use Prim.Native.String.{String}

pub data ZeroraftError : Type 0 where
  message : String → ZeroraftError
  tokio_send_error : String → ZeroraftError
  state_machine_error : String → ZeroraftError

-- `ZeroraftError::custom`: the argument is the text that `Display` gives.
unfoldable pub custom : String → ZeroraftError
custom msg = message msg

-- `From<SendError<T>>`: the argument is the text that `to_string` gives.
abbrev pub from : String → ZeroraftError
from err = tokio_send_error err
