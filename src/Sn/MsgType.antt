-- ===== src/Sn/MsgType.antt =====
-- enum MQTTSN_msgTypes of MQTTSNPacket.h.
use mbed_mqtt.Common.{ℕ}

abbrev pub connect : ℕ
connect = 4

abbrev pub connack : ℕ
connack = 5

abbrev pub willtopicreq : ℕ
willtopicreq = 6

abbrev pub willtopic : ℕ
willtopic = 7

abbrev pub willmsgreq : ℕ
willmsgreq = 8

abbrev pub willmsg : ℕ
willmsg = 9

abbrev pub register : ℕ
register = 10

abbrev pub regack : ℕ
regack = 11

abbrev pub publish : ℕ
publish = 12

abbrev pub puback : ℕ
puback = 13

abbrev pub pubcomp : ℕ
pubcomp = 14

abbrev pub pubrec : ℕ
pubrec = 15

abbrev pub pubrel : ℕ
pubrel = 16

abbrev pub subscribe : ℕ
subscribe = 18

abbrev pub suback : ℕ
suback = 19

abbrev pub unsubscribe : ℕ
unsubscribe = 20

abbrev pub unsuback : ℕ
unsuback = 21

abbrev pub pingreq : ℕ
pingreq = 22

abbrev pub pingresp : ℕ
pingresp = 23

abbrev pub disconnect : ℕ
disconnect = 24

abbrev pub willtopicupd : ℕ
willtopicupd = 26

abbrev pub willtopicresp : ℕ
willtopicresp = 27

abbrev pub willmsgupd : ℕ
willmsgupd = 28

abbrev pub willmsgresp : ℕ
willmsgresp = 29
