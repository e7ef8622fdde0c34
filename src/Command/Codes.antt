-- ===== src/Command/Codes.antt =====
-- command.go: the numbers of the commands.
use multiserver.Shared.{ℕ}

-- `ToClient…`
pub data ToClient : Type 0 where
  hello auth_accept accept_sudo_mode deny_sudo_mode access_denied blockdata add_node remove_node
        inventory time_of_day csm_restriction_flags player_speed media_push chat_message
        active_object_remove_add active_object_messages hp move_player fov deathscreen media
        tool_def node_def craft_item_def announce_media item_def play_sound stop_sound privileges
        inventory_formspec detached_inventory show_formspec movement spawn_particle
        add_particle_spawner hud_add hud_rm hud_change hud_set_flags hud_set_param breath set_sky
        override_day_night_ratio local_player_animations eye_offset delete_particle_spawner
        cloud_params fade_sound update_player_list mod_channel_msg mod_channel_signal
        node_meta_changed set_sun set_moon set_stars srp_bytes_sb formspec_prepend minimap_modes :
      ToClient

abbrev pub to_client_code : ToClient → ℕ
to_client_code hello = 0x02
to_client_code auth_accept = 0x03
to_client_code accept_sudo_mode = 0x04
to_client_code deny_sudo_mode = 0x05
to_client_code access_denied = 0x0A
to_client_code blockdata = 0x20
to_client_code add_node = 0x21
to_client_code remove_node = 0x22
to_client_code inventory = 0x27
to_client_code time_of_day = 0x29
to_client_code csm_restriction_flags = 0x2A
to_client_code player_speed = 0x2B
to_client_code media_push = 0x2C
to_client_code chat_message = 0x2F
to_client_code active_object_remove_add = 0x31
to_client_code active_object_messages = 0x32
to_client_code hp = 0x33
to_client_code move_player = 0x34
to_client_code fov = 0x36
to_client_code deathscreen = 0x37
to_client_code media = 0x38
to_client_code tool_def = 0x39
to_client_code node_def = 0x3A
to_client_code craft_item_def = 0x3B
to_client_code announce_media = 0x3C
to_client_code item_def = 0x3D
to_client_code play_sound = 0x3F
to_client_code stop_sound = 0x40
to_client_code privileges = 0x41
to_client_code inventory_formspec = 0x42
to_client_code detached_inventory = 0x43
to_client_code show_formspec = 0x44
to_client_code movement = 0x45
to_client_code spawn_particle = 0x46
to_client_code add_particle_spawner = 0x47
to_client_code hud_add = 0x49
to_client_code hud_rm = 0x4A
to_client_code hud_change = 0x4B
to_client_code hud_set_flags = 0x4C
to_client_code hud_set_param = 0x4D
to_client_code breath = 0x4E
to_client_code set_sky = 0x4F
to_client_code override_day_night_ratio = 0x50
to_client_code local_player_animations = 0x51
to_client_code eye_offset = 0x52
to_client_code delete_particle_spawner = 0x53
to_client_code cloud_params = 0x54
to_client_code fade_sound = 0x55
to_client_code update_player_list = 0x56
to_client_code mod_channel_msg = 0x57
to_client_code mod_channel_signal = 0x58
to_client_code node_meta_changed = 0x59
to_client_code set_sun = 0x5A
to_client_code set_moon = 0x5B
to_client_code set_stars = 0x5C
to_client_code srp_bytes_sb = 0x60
to_client_code formspec_prepend = 0x61
to_client_code minimap_modes = 0x62

-- `ToServer…`
pub data ToServer : Type 0 where
  srv_init srv_init2 srv_mod_channel_join srv_mod_channel_leave srv_mod_channel_msg srv_player_pos
        srv_got_blocks srv_deleted_blocks srv_inventory_action srv_chat_message srv_damage
        srv_player_item srv_respawn srv_interact srv_removed_sounds srv_node_meta_fields
        srv_inventory_fields srv_request_media srv_client_ready srv_first_srp srv_srp_bytes_a
        srv_srp_bytes_m :
      ToServer

abbrev pub to_server_code : ToServer → ℕ
to_server_code srv_init = 0x02
to_server_code srv_init2 = 0x11
to_server_code srv_mod_channel_join = 0x17
to_server_code srv_mod_channel_leave = 0x18
to_server_code srv_mod_channel_msg = 0x19
to_server_code srv_player_pos = 0x23
to_server_code srv_got_blocks = 0x24
to_server_code srv_deleted_blocks = 0x25
to_server_code srv_inventory_action = 0x31
to_server_code srv_chat_message = 0x32
to_server_code srv_damage = 0x35
to_server_code srv_player_item = 0x37
to_server_code srv_respawn = 0x38
to_server_code srv_interact = 0x39
to_server_code srv_removed_sounds = 0x3A
to_server_code srv_node_meta_fields = 0x3B
to_server_code srv_inventory_fields = 0x3C
to_server_code srv_request_media = 0x40
to_server_code srv_client_ready = 0x43
to_server_code srv_first_srp = 0x50
to_server_code srv_srp_bytes_a = 0x51
to_server_code srv_srp_bytes_m = 0x52
