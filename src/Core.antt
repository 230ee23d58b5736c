-- ===== src/Core.antt =====
-- src/plugins/core: the plugin with the echo command. A command is the number of its object.
use tiksrv.Base.{ℕ, false, List, [], ◌∷◌, ok, Act}
use tiksrv.Net.Client
use tiksrv.Net.Client.{Client, SendHandler, respond_success}
use tiksrv.Net.Message.{Request}
use tiksrv.App.Plugins.{Plugin}
use tiksrv.App.Server.{Command}

-- `echo_command::execute`, with an empty function for the end of the send.
unfoldable pub echo_execute : SendHandler → Request → Act Client Client.Call
unfolding respond_success
echo_execute cb req = respond_success req.body req.header.tag cb

abbrev pub commands_type : ℕ
commands_type = 0

-- `plugin_command::echo`.
abbrev pub echo_key : ℕ
echo_key = 0

unfoldable pub export_commands : Command → List (ℕ × ℕ × Command)
export_commands echo = (commands_type, echo_key, echo) ∷ []

-- `create` cannot fail.
unfoldable pub core_plugin : Command → Plugin
unfolding export_commands
core_plugin echo = record { create = λ w. ok (w, false); exports = export_commands echo }
