-- ===== src/Command/Route.antt =====
-- command.rs: which commands go to the room of the host, and which to the member's connection.
use veilroom.Prelude.{Option, none, some}
use veilroom.Event.{MemberRef, HostCommand, MemberCommand}
use veilroom.Command.Line.{SlashCommand, KickTarget}

unfoldable pub member_ref : KickTarget → MemberRef
member_ref (KickTarget.id n) = MemberRef.id n
member_ref (KickTarget.nickname t) = MemberRef.nickname t

unfoldable pub into_host_command : SlashCommand → Option HostCommand
unfolding member_ref
into_host_command (SlashCommand.kick target) = some (HostCommand.kick (member_ref target))
into_host_command SlashCommand.new_id = some HostCommand.new_id
into_host_command SlashCommand.req_on = some HostCommand.req_on
into_host_command SlashCommand.req_off = some HostCommand.req_off
into_host_command SlashCommand.requests = some HostCommand.requests
into_host_command (SlashCommand.accept n) = some (HostCommand.accept n)
into_host_command (SlashCommand.reject n) = some (HostCommand.reject n)
into_host_command _ = none

unfoldable pub into_member_command : SlashCommand → Option MemberCommand
into_member_command SlashCommand.leave = some MemberCommand.leave
into_member_command (SlashCommand.color c) = some (MemberCommand.color c)
into_member_command SlashCommand.list = some MemberCommand.list
into_member_command (SlashCommand.whois t) = some (MemberCommand.whois t)
into_member_command _ = none
